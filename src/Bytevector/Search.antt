-- ===== src/Bytevector/Search.antt =====
-- `bytevector_index_u8` and `subbytevector_fill`, position by position.
use schemesh.Base.{
  ℕ, zero, suc, ◌≡◌, ◌≢◌, inl, inr, none, some, List, [], ◌∷◌, ◌++◌, ◌≤◌, ◌<◌, ◌+◌, ◌-◌, arith,
  length, drop, take, replicate, get_elem?, ◌==◌, Bool-cases, Option-cases, sym, ◌∙◌,
  get_elem?-drop, get_elem?-take, get_elem?-replicate, get_elem?-append_left,
  get_elem?-append_right, length-take, length-replicate,
}
use mathlib.Core.Option.{some-injective}
use schemesh.Base.Int.{ℤ, pos}
use schemesh.Scheme.{sfalse, fixnum, bytevector}
use schemesh.Bytevector.{memchr, bytevector_index_u8, subbytevector_fill, low_byte}

-- i is the first position of the byte, and one of the next n.
abbrev pub IsFirst : List ℕ → ℕ → ℕ → ℕ → Type 0
IsFirst bs byte n i =
    (i < n) × (get_elem? bs i ≡ some byte) × ((j : ℕ) → j < i → get_elem? bs j ≢ some byte)

IsFirst-suc :
    (b : ℕ) (bs : List ℕ) (byte n i : ℕ)
    → b ≢ byte
    → IsFirst bs byte n i
    → IsFirst (b ∷ bs) byte (suc n) (suc i)
IsFirst-suc b bs byte n i ne (h, e, before) = (omega arith, e, earlier)
  where
    earlier : (j : ℕ) → j < suc i → get_elem? (b ∷ bs) j ≢ some byte
    earlier zero k p = ne (some-injective b byte p)
    earlier (suc j) k p = before j (omega arith) p

memchr-some : (bs : List ℕ) (byte n i : ℕ) → memchr bs byte n ≡ some i → IsFirst bs byte n i
unfolding memchr
memchr-some [] byte n i e = cc
memchr-some (b ∷ bs) byte zero i e = cc
memchr-some (b ∷ bs) byte (suc n) i e = elim (Bool-cases (b == byte)) [
  | inl same ↦
      let p : i ≡ 0 = ground arith in
      rw p (omega arith, ground arith, λ j h q. absurd (omega arith))
  | inr other ↦ elim (Option-cases (memchr bs byte n)) [
    | inl nothing ↦ absurd (ground arith)
    | inr (k, found) ↦
        let p : i ≡ suc k = ground arith in
        rw p (IsFirst-suc b bs byte n k (ground arith) (memchr-some bs byte n k found))
  ]
]

memchr-none :
    (bs : List ℕ) (byte n : ℕ)
    → memchr bs byte n ≡ none
    → (j : ℕ) → j < n
    → get_elem? bs j ≢ some byte
unfolding memchr
memchr-none [] byte n e j h = λ x. cc
memchr-none (b ∷ bs) byte zero e j h = absurd (omega arith)
memchr-none (b ∷ bs) byte (suc n) e zero h = ground arith
memchr-none (b ∷ bs) byte (suc n) e (suc j) h = memchr-none bs byte n (ground arith) j (omega arith)

-- A fixnum result i means that the first byte of the range with that value stands at start + i: it
-- counts from `start` and not from the front of the bytevector.
pub bytevector_index_u8_found :
    (bvec : List ℕ) (start end i : ℕ) (value : ℤ)
    → bytevector_index_u8 (bytevector bvec) (pos start) (pos end) value ≡ fixnum (pos i)
    → (start + i < end)
      × (end ≤ length bvec)
      × (get_elem? bvec (start + i) ≡ some (low_byte value))
      × ((j : ℕ) → j < i → get_elem? bvec (start + j) ≢ some (low_byte value))
unfolding bytevector_index_u8
bytevector_index_u8_found bvec start end i value e =
    let byte = low_byte value in
    let found : memchr (drop start bvec) byte (end - start) ≡ some i = ground arith in
    let (h, at_, before) = memchr-some (drop start bvec) byte (end - start) i found in
    (
      omega arith,
      ground arith,
      sym (get_elem?-drop start bvec i) ∙ at_,
      λ j k p. before j k (get_elem?-drop start bvec j ∙ p),
    )

-- On a valid range the result is #f only if no byte of the range has that value.
pub bytevector_index_u8_absent :
    (bvec : List ℕ) (start end : ℕ) (value : ℤ)
    → start < end
    → end ≤ length bvec
    → bytevector_index_u8 (bytevector bvec) (pos start) (pos end) value ≡ sfalse
    → (j : ℕ) → start ≤ j
    → j < end
    → get_elem? bvec j ≢ some (low_byte value)
unfolding bytevector_index_u8
bytevector_index_u8_absent bvec start end value h k e j lo hi p =
    let byte = low_byte value in
    let absent : memchr (drop start bvec) byte (end - start) ≡ none = ground arith in
    let q : start + (j - start) ≡ j = omega arith in
    memchr-none (drop start bvec) byte (end - start) absent (j - start) (omega arith)
      (get_elem?-drop start bvec (j - start) ∙ rw q p)

-- Filling a valid range writes the low byte of the value at the positions of the range and leaves the
-- others.
pub subbytevector_fill_lem :
    (bvec : List ℕ) (start end : ℕ) (value : ℤ)
    → start < end
    → end ≤ length bvec
    → (out : List ℕ) × (subbytevector_fill (bytevector bvec) (pos start) (pos end) value
        ≡ bytevector out)
      × ((i : ℕ) → i < start → get_elem? out i ≡ get_elem? bvec i)
      × ((i : ℕ) → start ≤ i → i < end → get_elem? out i ≡ some (low_byte value))
      × ((i : ℕ) → end ≤ i → get_elem? out i ≡ get_elem? bvec i)
unfolding subbytevector_fill
subbytevector_fill_lem bvec start end value h k =
    let byte = low_byte value in
    let front = take start bvec in
    let middle = replicate (end - start) byte in
    let back = drop (end - start) (drop start bvec) in
    let size : length front ≡ start = omega (arith, length-take start bvec) in
    let size' : length middle ≡ end - start = length-replicate (end - start) byte in
    (
      front ++ (middle ++ back),
      ground arith,
      λ i lt.
          get_elem?-append_left front (middle ++ back) i (omega arith)
          ∙ get_elem?-take start bvec i lt,
      λ i lo hi.
          get_elem?-append_right front (middle ++ back) i (i - start) (omega arith)
          ∙ get_elem?-append_left middle back (i - start) (omega arith)
          ∙ get_elem?-replicate (end - start) byte (i - start) (omega arith),
      λ i lo.
          let q : start + (end - start + (i - end)) ≡ i = omega arith in
          get_elem?-append_right front (middle ++ back) i (i - start) (omega arith)
          ∙ get_elem?-append_right middle back (i - start) (i - end) (omega arith)
          ∙ get_elem?-drop (end - start) (drop start bvec) (i - end)
          ∙ get_elem?-drop start bvec (end - start + (i - end))
          ∙ rw q,
    )
