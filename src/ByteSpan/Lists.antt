-- ===== src/ByteSpan/Lists.antt =====
-- A list in three parts, and what is read and written in the middle one.
use schemesh.Base.{
  ℕ, zero, suc, ◌+◌, ◌≤◌, ◌<◌, ◌≡◌, refl, ◌∙◌, sym, ap, List, [], ◌∷◌, ◌++◌, arith, length, take,
  drop, set, get_elem?, length-take, take-append-drop,
}
use native.Mathlib.Nat.{zero-add, suc-add}

module _ {ℓ} {A : Type ℓ} where
  pub take-length_append : (xs ys : List A) → take (length xs) (xs ++ ys) ≡ xs
  take-length_append [] ys = refl
  take-length_append (x ∷ xs) ys = ap (λ t. x ∷ t) (take-length_append xs ys)

  pub drop-length_append : (xs ys : List A) → drop (length xs) (xs ++ ys) ≡ ys
  drop-length_append [] ys = refl
  drop-length_append (x ∷ xs) ys = drop-length_append xs ys

  pub drop-add : (n k : ℕ) (xs : List A) → drop (n + k) xs ≡ drop k (drop n xs)
  drop-add zero k xs = rw zero-add
  drop-add (suc n) zero [] = rw suc-add
  drop-add (suc n) (suc k) [] = rw suc-add
  drop-add (suc n) k (x ∷ xs) = rw suc-add (drop-add n k xs)

  -- Between what stands in front and behind.
  pub slice-middle :
      (front mid back : List A)
      → take (length mid) (drop (length front) (front ++ (mid ++ back))) ≡ mid
  slice-middle front mid back =
      ap (take (length mid)) (drop-length_append front (mid ++ back)) ∙ take-length_append mid back

  pub drop-middle :
      (front mid back : List A) → drop (length front + length mid) (front ++ (mid ++ back)) ≡ back
  drop-middle front mid back =
      drop-add (length front) (length mid) (front ++ (mid ++ back))
      ∙ ap (drop (length mid)) (drop-length_append front (mid ++ back))
      ∙ drop-length_append mid back

  pub set-middle :
      (front back : List A) (x y : A)
      → set (front ++ (x ∷ back)) (length front) y ≡ front ++ (y ∷ back)
  set-middle [] back x y = refl
  set-middle (a ∷ front) back x y = ap (λ t. a ∷ t) (set-middle front back x y)

  -- A list is split at a position within it.
  pub split_at :
      (k : ℕ) (xs : List A)
      → k ≤ length xs
      → (front : List A) × (back : List A) × (xs ≡ front ++ back) × (length front ≡ k)
  split_at k xs h =
      (take k xs, drop k xs, sym (take-append-drop k xs), length-take k xs ∙ omega arith)

  pub get_elem?-middle :
      (front mid back : List A) (i : ℕ)
      → i < length mid
      → get_elem? (front ++ (mid ++ back)) (i + length front) ≡ get_elem? mid i
  get_elem?-middle [] [] back i h = absurd (omega arith)
  get_elem?-middle [] (x ∷ mid) back zero h = refl
  get_elem?-middle [] (x ∷ mid) back (suc i) h =
      rw suc-add (get_elem?-middle [] mid back i (omega arith))
  get_elem?-middle (a ∷ front) mid back i h =
      let e : i + suc (length front) ≡ suc (i + length front) = omega arith in
      rw e (get_elem?-middle front mid back i h)
