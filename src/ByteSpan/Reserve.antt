-- ===== src/ByteSpan/Reserve.antt =====
-- Making space in a span keeps its bytes.
use schemesh.Base.{
  ℕ, ◌+◌, ◌-◌, ◌*◌, ◌≤◌, ◌≡◌, refl, ◌∙◌, sym, ap, true, Option, some, List, [], ◌++◌, arith, length,
  take, drop, leb, max, min, Bool-cases, inl, inr, length-append, length-take, length-drop,
  drop-all,
}
use mathlib.Core.List.{append_assoc}
use schemesh.ByteSpan.{
  ByteSpan, bytevector_copy, reserve_left, reserve_right, resize_left, resize_right,
}
use schemesh.ByteSpan.Lists.{slice-middle, split_at}
use schemesh.ByteSpan.Holds.{span_of, Holds, span-eq, span_of-capacity}

-- A copy of the bytes of a span into a bytevector, at its end and at its front.
copy_to_back :
    (front xs back dst : List ℕ)
    → length xs ≤ length dst
    → let n = length dst - length xs in
      bytevector_copy (front ++ (xs ++ back)) (length front) dst n (length xs)
      ≡ take n dst ++ (xs ++ [])
copy_to_back front xs back dst h =
    let n = length dst - length xs in
    let rest : drop (n + length xs) dst ≡ [] = drop-all (n + length xs) dst (omega arith) in
    rw (slice-middle front xs back, rest) refl

copy_to_front :
    (front xs back dst : List ℕ)
    → bytevector_copy (front ++ (xs ++ back)) (length front) dst 0 (length xs)
      ≡ xs ++ drop (0 + length xs) dst
copy_to_front front xs back dst = rw (slice-middle front xs back) refl

left_grown :
    (f f0 junk xs b : List ℕ) (k : ℕ)
    → f ≡ f0 ++ junk
    → length junk ≡ k
    → ◌≡◌ {A = ByteSpan}
        (record {
          beg = length f + length xs - (length xs + k);
          end = length f + length xs;
          vec = f ++ (xs ++ b);
        })
        (span_of f0 (junk ++ xs) b)
left_grown f f0 junk xs b k e j =
    let whole = ap length e ∙ length-append f0 junk in
    span-eq (omega (arith, whole)) (omega (arith, whole, length-append junk xs)) (
      ap (λ t. t ++ (xs ++ b)) e
      ∙ append_assoc f0 junk (xs ++ b)
      ∙ ap (λ t. f0 ++ t) (sym (append_assoc junk xs b)))

right_grown :
    (f xs b junk b0 : List ℕ) (k : ℕ)
    → b ≡ junk ++ b0
    → length junk ≡ k
    → ◌≡◌ {A = ByteSpan}
        (record { beg = length f; end = length xs + k + length f; vec = f ++ (xs ++ b) })
        (span_of f (xs ++ junk) b0)
right_grown f xs b junk b0 k e j =
    span-eq refl (omega (arith, length-append xs junk))
      (ap (λ t. f ++ (xs ++ t)) e ∙ ap (λ t. f ++ t) (sym (append_assoc xs junk b0)))

junk_size :
    (f f0 junk : List ℕ) (k m : ℕ)
    → f ≡ f0 ++ junk
    → length f0 ≡ length f - k
    → m + k ≤ length f + m
    → length junk ≡ k
junk_size f f0 junk k m e s h = omega (arith, ap length e ∙ length-append f0 junk)

module _ (fresh : ℕ → List ℕ) (sized : (n : ℕ) → length (fresh n) ≡ n) where
  -- The span has len bytes of space up to the last byte, and behind the first one.
  abbrev pub HasLeft : Option ByteSpan → List ℕ → ℕ → Type 0
  HasLeft r xs len =
      (front : List ℕ) × (back : List ℕ) × (r ≡ some (span_of front xs back))
      × (len ≤ length front + length xs)

  abbrev pub HasRight : Option ByteSpan → List ℕ → ℕ → Type 0
  HasRight r xs len =
      (front : List ℕ) × (back : List ℕ) × (r ≡ some (span_of front xs back))
      × (len ≤ length xs + length back)

  moved_back :
      (front xs back dst : List ℕ) (e : ℕ)
      → e ≡ length dst
      → length xs ≤ length dst
      → ◌≡◌ {A = ByteSpan}
          (record {
            beg = e - length xs;
            end = e;
            vec =
                bytevector_copy
                  (front ++ (xs ++ back))
                  (length front)
                  dst
                  (e - length xs)
                  (length xs);
          })
          (span_of (take (e - length xs) dst) xs [])
  moved_back front xs back dst e p h =
      let n = e - length xs in
      let m : length (take n dst) ≡ n = length-take n dst ∙ omega arith in
      span-eq (sym m) (omega (arith, m)) (rw p (copy_to_back front xs back dst h))

  reserve_left_lem :
      (front xs back : List ℕ) (len : ℕ)
      → HasLeft (reserve_left fresh (span_of front xs back) len) xs len
  unfolding reserve_left
  reserve_left_lem front xs back len =
      let cap = span_of-capacity front xs back in
      elim (Bool-cases (leb len (length front + length xs))) [
        | inl a ↦ rw (reserve_left, a) (front, back, refl, ground arith)
        | inr a ↦
            let n : length front + length xs - length front ≡ length xs = omega arith in
            elim (Bool-cases (leb len (length (front ++ (xs ++ back))))) [
              | inl b ↦
                  let vec = front ++ (xs ++ back) in
                  rw (reserve_left, a, b, n)
                    (
                      take (length vec - length xs) vec,
                      [],
                      ap some (moved_back front xs back vec (length vec) refl (omega arith)),
                      ground (arith, length-take (length vec - length xs) vec),
                    )
              | inr b ↦
                  let new_cap = max 8 (max len (2 * (length front + length xs))) in
                  let c : leb (length xs) new_cap ≡ true = ground arith in
                  let m : min (length xs) (length xs) ≡ length xs = omega arith in
                  let k : new_cap ≡ length (fresh new_cap) = sym (sized new_cap) in
                  rw (reserve_left, a, b, n, c, m)
                    (
                      take (new_cap - length xs) (fresh new_cap),
                      [],
                      ap some
                          (moved_back front xs back (fresh new_cap) new_cap k (omega (arith, k))),
                      omega (arith, k, length-take (new_cap - length xs) (fresh new_cap)),
                    )
            ]
      ]

  moved_front :
      (front xs back dst : List ℕ)
      → ◌≡◌ {A = ByteSpan}
          (record {
            beg = 0;
            end = length xs;
            vec = bytevector_copy (front ++ (xs ++ back)) (length front) dst 0 (length xs);
          })
          (span_of [] xs (drop (0 + length xs) dst))
  moved_front front xs back dst = span-eq refl (omega arith) (copy_to_front front xs back dst)

  reserve_right_lem :
      (front xs back : List ℕ) (len : ℕ)
      → HasRight (reserve_right fresh (span_of front xs back) len) xs len
  unfolding reserve_right
  reserve_right_lem front xs back len =
      let vec = front ++ (xs ++ back) in
      let cap = span_of-capacity front xs back in
      elim (Bool-cases (leb len (length vec - length front))) [
        | inl a ↦ rw (reserve_right, a) (front, back, refl, ground arith)
        | inr a ↦
            let n : length front + length xs - length front ≡ length xs = omega arith in
            elim (Bool-cases (leb len (length vec))) [
              | inl b ↦
                  rw (reserve_right, a, b, n)
                    (
                      [],
                      drop (0 + length xs) vec,
                      ap some (moved_front front xs back vec),
                      ground (arith, length-drop (0 + length xs) vec),
                    )
              | inr b ↦
                  let new_cap = max 8 (max len (2 * (length vec - length front))) in
                  let c : leb (length xs) new_cap ≡ true = ground arith in
                  let m : min (length xs) (length xs) ≡ length xs = omega arith in
                  let k : new_cap ≡ length (fresh new_cap) = sym (sized new_cap) in
                  rw (reserve_right, a, b, n, c, m)
                    (
                      [],
                      drop (0 + length xs) (fresh new_cap),
                      ap some (moved_front front xs back (fresh new_cap)),
                      omega (arith, k, length-drop (0 + length xs) (fresh new_cap)),
                    )
            ]
      ]

  -- A span that grew by k bytes whose values are not known.
  abbrev pub Grown : Option ByteSpan → (List ℕ → List ℕ) → ℕ → Type 0
  Grown r place k =
      (junk : List ℕ) × (q : ByteSpan) × (r ≡ some q) × Holds q (place junk) × (length junk ≡ k)

  pub resize_left-Grown :
      (sp : ByteSpan) (xs : List ℕ) (k : ℕ)
      → Holds sp xs
      → Grown (resize_left fresh sp (length xs + k)) (λ junk. junk ++ xs) k
  unfolding resize_left
  resize_left-Grown sp xs k (front, back, e) =
      let n = length xs + k in
      let (f, b, r, h) = reserve_left_lem front xs back n in
      let (f0, junk, parts, size) = split_at (length f - k) f (omega arith) in
      let j = junk_size f f0 junk k (length xs) parts size h in
      let c : leb n (length f + length xs) ≡ true = ground arith in
      rw (e, resize_left, r, c) (junk, _, refl, (f0, b, left_grown f f0 junk xs b k parts j), j)

  pub resize_right-Grown :
      (sp : ByteSpan) (xs : List ℕ) (k : ℕ)
      → Holds sp xs
      → Grown (resize_right fresh sp (length xs + k)) (λ junk. xs ++ junk) k
  unfolding resize_right
  resize_right-Grown sp xs k (front, back, e) =
      let n = length xs + k in
      let (f, b, r, h) = reserve_right_lem front xs back n in
      let (junk, b0, parts, size) = split_at k b (omega arith) in
      let c : leb n (length (f ++ (xs ++ b)) - length f) ≡ true =
        ground (arith, span_of-capacity f xs b) in
      rw (e, resize_right, r, c)
        (junk, _, refl, (f, b0, right_grown f xs b junk b0 k parts size), size)
