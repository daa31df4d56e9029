-- ===== src/ByteSpan/Reads.antt =====
-- What is read of a span depends on its bytes alone.
use schemesh.Base.{
  ℕ, suc, ◌+◌, ◌-◌, ◌≡◌, refl, ◌∙◌, sym, ap, Bool, true, false, ◌&&◌, ◌||◌, not, Option, some, List,
  [], ◌∷◌, ◌++◌, arith, length, take, drop, set, leb, ◌==◌, inl, inr, length-append, Bool-cases,
  length-drop, get_elem?,
}
use mathlib.Core.Path.{subst}
use mathlib.Core.List.{append-nil, append_assoc}
use schemesh.ByteSpan.{ByteSpan, bytespan_ref, bytevector_copy, is_empty}
use schemesh.ByteSpan.Whole.{
  bytespan_to_bytevector0, bytespan_copied, bytespan_to_bytevector_in_place, bytespan_equal,
  equal_loop,
}
use schemesh.ByteSpan.Insert.{length-zero}
use schemesh.ByteSpan.Holds.{
  span_of, Holds, Holds-length, Holds-contents, span-eq, bytespan_ref-Holds,
}
use schemesh.ByteSpan.Lists.{slice-middle, set-middle, take-length_append}

abbrev pub same_bytes : List ℕ → List ℕ → Bool
same_bytes [] [] = true
same_bytes (a ∷ xs) (b ∷ ys) = a == b && same_bytes xs ys
same_bytes _ _ = false

same_bytes-length : (xs ys : List ℕ) → same_bytes xs ys ≡ true → length xs ≡ length ys
same_bytes-length [] [] h = refl
same_bytes-length [] (y ∷ ys) h = absurd (ground arith)
same_bytes-length (x ∷ xs) [] h = absurd (ground arith)
same_bytes-length (x ∷ xs) (y ∷ ys) h = ap suc (same_bytes-length xs ys (ground arith))

get_elem?-at :
    (front : List ℕ) (x : ℕ) (back : List ℕ)
    → get_elem? (front ++ (x ∷ back)) (length front) ≡ some x
get_elem?-at [] x back = refl
get_elem?-at (a ∷ front) x back = get_elem?-at front x back

single : (xs : List ℕ) → length xs ≡ 1 → (x : ℕ) × (xs ≡ x ∷ [])
single [] h = absurd (omega arith)
single (x ∷ []) h = (x, refl)
single (x ∷ (y ∷ xs)) h = absurd (omega arith)

bytevector0-stored :
    (vec xs : List ℕ) (beg : ℕ) (new : List ℕ)
    → take (length xs) (drop beg vec) ≡ xs
    → length new ≡ length xs + 1
    → set (bytevector_copy vec beg new 0 (length xs)) (length xs) 0 ≡ xs ++ (0 ∷ [])
bytevector0-stored vec xs beg new e h =
    let (z, last) = single (drop (length xs) new) (omega (arith, length-drop (length xs) new)) in
    let n : 0 + length xs ≡ length xs = omega arith in rw (n, e, last) (set-middle xs [] z 0)

-- One round of the loop.
equal_loop-suc :
    (left right : ByteSpan) (i rounds a b : ℕ)
    → bytespan_ref left i ≡ some a
    → bytespan_ref right i ≡ some b
    → equal_loop left right i (suc rounds) ≡ elim (a == b) as (λ x. Option Bool) [
      | true ↦ equal_loop left right (i + 1) rounds
      | false ↦ some false
    ]
unfolding equal_loop
equal_loop-suc left right i rounds a b h k = rw (h, k) refl

-- The loop behind the bytes that are the same.
equal_loop-Holds :
    (left right : ByteSpan) (front xs ys : List ℕ)
    → Holds left (front ++ xs)
    → Holds right (front ++ ys)
    → length xs ≡ length ys
    → equal_loop left right (length front) (length xs) ≡ some (same_bytes xs ys)
unfolding equal_loop
equal_loop-Holds left right front [] [] h k e = refl
equal_loop-Holds left right front [] (y ∷ ys) h k e = absurd (omega arith)
equal_loop-Holds left right front (x ∷ xs) [] h k e = absurd (omega arith)
equal_loop-Holds left right front (x ∷ xs) (y ∷ ys) h k e =
    let a =
      bytespan_ref-Holds left (front ++ (x ∷ xs)) (length front) h ∙ get_elem?-at front x xs in
    let b =
      bytespan_ref-Holds right (front ++ (y ∷ ys)) (length front) k ∙ get_elem?-at front y ys in
    let round = equal_loop-suc left right (length front) (length xs) x y a b in
    elim (Bool-cases (x == y)) [
      | inr c ↦ round ∙ rw c refl
      | inl c ↦
          let same : y ≡ x = ground arith in
          let next : length (front ++ (x ∷ [])) ≡ length front + 1 = length-append front (x ∷ []) in
          let rest =
            equal_loop-Holds left right (front ++ (x ∷ [])) xs ys
              (subst (Holds left) (sym (append_assoc front (x ∷ []) xs)) h)
              (subst (Holds right)
                (ap (λ z. front ++ (z ∷ ys)) same ∙ sym (append_assoc front (x ∷ []) ys)) k)
              (omega arith) in
          round ∙ rw c (ap (λ n. equal_loop left right n (length xs)) (sym next) ∙ rest)
    ]

pub bytespan_equal-Holds :
    (left right : ByteSpan) (xs ys : List ℕ)
    → Holds left xs
    → Holds right ys
    → bytespan_equal left right ≡ some (same_bytes xs ys)
unfolding bytespan_equal
bytespan_equal-Holds left right xs ys h k = elim (Bool-cases (length xs == length ys)) [
  | inl b ↦
      rw (Holds-length left xs h, Holds-length right ys k, b)
        (equal_loop-Holds left right [] xs ys h k (ground arith))
  | inr b ↦ elim (Bool-cases (same_bytes xs ys)) [
    | inl c ↦ absurd (ground (arith, same_bytes-length xs ys c))
    | inr c ↦ rw (Holds-length left xs h, Holds-length right ys k, b, c) refl
  ]
]

module _ (sp : ByteSpan) (xs : List ℕ) (holds : Holds sp xs) where
  pub bytevector0-Holds :
      (fresh : ℕ → List ℕ)
      → ((n : ℕ) → length (fresh n) ≡ n)
      → bytespan_to_bytevector0 fresh sp ≡ xs ++ (0 ∷ [])
  unfolding bytespan_to_bytevector0
  bytevector0-Holds fresh sized =
      let (front, back, e) = holds in
      elim (Bool-cases (leb (length front + length xs) (length front))) [
        | inl b ↦ rw (e, b) (ap (λ t. t ++ (0 ∷ [])) (sym (length-zero xs (ground arith))))
        | inr b ↦
            let n : length front + length xs - length front ≡ length xs = omega arith in
            rw (e, b, n)
              (bytevector0-stored (front ++ (xs ++ back)) xs (length front) (fresh (length xs + 1))
                (slice-middle front xs back) (sized (length xs + 1)))
      ]

  pub copied-Holds : (fresh : ℕ → List ℕ) → Holds (bytespan_copied fresh sp) xs
  unfolding bytespan_copied
  copied-Holds fresh =
      let (front, back, e) = holds in
      let n : length front + length xs - length front ≡ length xs = omega arith in
      let m : 0 + length xs ≡ length xs = omega arith in
      ([], drop (length xs) (fresh (length xs)), rw (e, n, slice-middle front xs back, m) refl)

  pub in_place-Holds : let (bv, q) = bytespan_to_bytevector_in_place sp in (bv ≡ xs) × Holds q xs
  unfolding bytespan_to_bytevector_in_place
  in_place-Holds = elim (Bool-cases (is_empty sp || not (sp.beg == 0))) [
    | inl b ↦ rw b (Holds-contents sp xs holds, holds)
    | inr b ↦
        let (front, back, e) = holds in
        let start : sp.beg ≡ length front = ap (λ q. q.beg) e in
        let none_before : front ≡ [] = length-zero front (ground arith) in
        let h : sp ≡ span_of [] xs back = e ∙ ap (λ t. span_of t xs back) none_before in
        let n : 0 + length xs ≡ length xs = omega arith in
        let cut : take (0 + length xs) (xs ++ back) ≡ xs = rw n (take-length_append xs back) in
        rw (b, h) (cut, ([], [], span-eq refl refl (cut ∙ sym (append-nil xs))))
  ]
