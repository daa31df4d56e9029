-- ===== src/Posix/Fd/Reading.antt =====
-- `c_fd_read` writes into its buffer, and nowhere else.
use schemesh.Base.{
  ℕ, ◌+◌, ◌-◌, ◌≡◌, ◌∙◌, refl, ◌≤◌, ◌<◌, true, false, List, [], ◌++◌, ltb, leb, ◌&&◌, length, take,
  drop, get_elem?, length-append, length-take, length-drop, get_elem?-append_left,
  get_elem?-append_right, get_elem?-take, get_elem?-drop, arith, inl, inr, Bool-cases, lt-cases,
}
use schemesh.Base.Int.{ℤ, pos_part}
use schemesh.Scheme.{Ptr, bytevector}
use schemesh.Posix.{Kernel, Process, ok, read, call, is_neg, Answer-cases}
use schemesh.Posix.Fd.{is_range, store, store_read, read_failed, fd_read}

abbrev pub contents : Ptr → List ℕ
contents (bytevector bytes) = bytes
contents _ = []

length-store :
    (bytes : List ℕ) (start : ℕ) (got : List ℕ)
    → start + length got ≤ length bytes
    → length (store bytes start got) ≡ length bytes
length-store bytes start got h =
    rw
      (
        length-append (take start bytes) (got ++ drop (start + length got) bytes),
        length-append got (drop (start + length got) bytes),
        length-take start bytes,
        length-drop (start + length got) bytes,
      )
      (omega (arith, h))

-- Behind the stored bytes, and in front of them, the contents stay.
store_before :
    (bytes : List ℕ) (start : ℕ) (got : List ℕ) (i : ℕ)
    → start ≤ length bytes
    → i < start
    → get_elem? (store bytes start got) i ≡ get_elem? bytes i
store_before bytes start got i h k =
    let t = length-take start bytes in
    get_elem?-append_left (take start bytes) _ i (omega (arith, t, h, k))
    ∙ get_elem?-take start bytes i k

store_behind :
    (bytes : List ℕ) (start : ℕ) (got : List ℕ) (i : ℕ)
    → start + length got ≤ length bytes
    → start + length got ≤ i
    → get_elem? (store bytes start got) i ≡ get_elem? bytes i
store_behind bytes start got i h k =
    let t = length-take start bytes in
    let rest = drop (start + length got) bytes in
    let j = i - start - length got in
    let e : start + length got + j ≡ i = omega (arith, k) in
    get_elem?-append_right (take start bytes) (got ++ rest) i (length got + j)
      (omega (arith, t, h, k))
    ∙ get_elem?-append_right got rest (length got + j) j refl
    ∙ get_elem?-drop (start + length got) bytes j
    ∙ rw e refl

module _ {W : Type 0} (kernel : Kernel W) (got_bytes : W → List ℕ) where
  -- `read` gives no more bytes than it was asked for.
  abbrev pub IsReading : Type 0
  IsReading = (fd : ℤ) (n : ℕ) (w : W) (r word : ℕ) → (kernel (read fd n) w).0 ≡ ok r word → r ≤ n

  no_more :
      (fd : ℤ) (n : ℕ) (p : Process W)
      → IsReading
      → let q = call kernel (read fd n) p in length (take (pos_part q.0) (got_bytes q.1.world)) ≤ n
  no_more fd n p reading = elim (Answer-cases (kernel (read fd n) p.world).0) [
    | inr (e, k) ↦ ground arith
    | inl (r, word, k) ↦
        let small = reading fd n p.world r word k in
        let l = length-take r (got_bytes (kernel (read fd n) p.world).1) in ground arith
  ]

  -- Over a kernel that gives no more bytes than it was asked for: whatever range is asked for and
  -- whatever the kernel answers, the bytevector keeps its length and each byte at a position outside
  -- the range.
  pub fd_read_keeps :
      (fd : ℤ) (bytes : List ℕ) (start end : ℤ) (i : ℕ) (p : Process W)
      → IsReading
      → (leb (pos_part start) i && ltb i (pos_part end)) ≡ false
      → let b = contents (fd_read kernel got_bytes fd (bytevector bytes) start end p).0.1 in
        (length b ≡ length bytes) × (get_elem? b i ≡ get_elem? bytes i)
  unfolding fd_read store_read read_failed
  fd_read_keeps fd bytes start end i p reading outside =
      elim (Bool-cases (is_range bytes start end)) [
        | inr b ↦ rw (fd_read, b) (refl, refl)
        | inl b ↦
            let c = read fd (pos_part end - pos_part start) in
            elim (Bool-cases (is_neg (call kernel c p).0)) [
              | inl n ↦ rw (fd_read, b, n) (refl, refl)
              | inr n ↦
                  let q = call kernel c p in
                  rw (fd_read, b, n)
                    (kept b (take (pos_part q.0) (got_bytes q.1.world))
                      (no_more fd (pos_part end - pos_part start) p reading))
            ]
      ]
    where
      kept :
          is_range bytes start end ≡ true
          → (got : List ℕ) → length got ≤ pos_part end - pos_part start
          → let b = store bytes (pos_part start) got in
            (length b ≡ length bytes) × (get_elem? b i ≡ get_elem? bytes i)
      kept b got h =
          let inside : (pos_part start ≤ pos_part end) × (pos_part end ≤ length bytes) =
            ground arith in
          let fits : pos_part start + length got ≤ length bytes =
            omega (arith, h, inside.0, inside.1) in
          elim (lt-cases i (pos_part start)) [
            | inl k ↦ (
              length-store bytes (pos_part start) got fits,
              store_before bytes (pos_part start) got i (omega (arith, fits)) k,
            )
            | inr k ↦
                let behind : pos_part end ≤ i = ground arith in
                (
                  length-store bytes (pos_part start) got fits,
                  store_behind bytes (pos_part start) got i fits
                      (omega (arith, h, behind, inside.0)),
                )
          ]
