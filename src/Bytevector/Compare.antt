-- ===== src/Bytevector/Compare.antt =====
-- `bytevector_compare` is the sign of the lexicographic order of bytes.
use schemesh.Base.{ℕ, ◌≡◌, ◌↔◌, ◌⊎◌, refl, List, [], ◌∷◌, ◌<◌, arith, ltb, if◌then◌else◌}
use schemesh.Base.Int.{ℤ, pos, negsuc, negate}
use schemesh.Bytevector.{memcmp, bytevector_compare}

-- The lexicographic order, where a proper prefix comes first.
abbrev pub Lex : List ℕ → List ℕ → Type 0
Lex xs [] = ⊥
Lex [] (y ∷ ys) = Unit {0}
Lex (x ∷ xs) (y ∷ ys) = (x < y) ⊎ ((x ≡ y) × Lex xs ys)

-- The comparison byte by byte.
abbrev pub compare_bytes : List ℕ → List ℕ → ℤ
compare_bytes [] [] = pos 0
compare_bytes [] (y ∷ ys) = negsuc 0
compare_bytes (x ∷ xs) [] = pos 1
compare_bytes (x ∷ xs) (y ∷ ys) =
    if ltb x y then negsuc 0 else if ltb y x then pos 1 else compare_bytes xs ys

memcmp-zero : (xs ys : List ℕ) → memcmp xs ys 0 ≡ pos 0
unfolding memcmp
memcmp-zero [] ys = refl
memcmp-zero (x ∷ xs) [] = refl
memcmp-zero (x ∷ xs) (y ∷ ys) = refl

bytevector_compare_step :
    (x y : ℕ) (xs ys : List ℕ)
    → bytevector_compare (x ∷ xs) (y ∷ ys)
      ≡ (if ltb x y then negsuc 0 else if ltb y x then pos 1 else bytevector_compare xs ys)
unfolding bytevector_compare
bytevector_compare_step x y xs ys = ground (arith, memcmp-zero xs ys)

compare_bytes_lem : (xs ys : List ℕ) → bytevector_compare xs ys ≡ compare_bytes xs ys
unfolding bytevector_compare
compare_bytes_lem [] [] = refl
compare_bytes_lem [] (y ∷ ys) = ground arith
compare_bytes_lem (x ∷ xs) [] = ground arith
compare_bytes_lem (x ∷ xs) (y ∷ ys) =
    rw (bytevector_compare_step x y xs ys, compare_bytes_lem xs ys)

compare_bytes-Lex : (xs ys : List ℕ) → (compare_bytes xs ys ≡ negsuc 0) ↔ Lex xs ys
compare_bytes-Lex [] [] = ground arith
compare_bytes-Lex [] (y ∷ ys) = ground arith
compare_bytes-Lex (x ∷ xs) [] = ground arith
compare_bytes-Lex (x ∷ xs) (y ∷ ys) = ground (arith, compare_bytes-Lex xs ys)

compare_bytes-eq : (xs ys : List ℕ) → (compare_bytes xs ys ≡ pos 0) ↔ (xs ≡ ys)
compare_bytes-eq [] [] = ground arith
compare_bytes-eq [] (y ∷ ys) = ground arith
compare_bytes-eq (x ∷ xs) [] = ground arith
compare_bytes-eq (x ∷ xs) (y ∷ ys) = ground (arith, compare_bytes-eq xs ys)

compare_bytes-negate : (xs ys : List ℕ) → compare_bytes ys xs ≡ negate (compare_bytes xs ys)
compare_bytes-negate [] [] = ground arith
compare_bytes-negate [] (y ∷ ys) = ground arith
compare_bytes-negate (x ∷ xs) [] = ground arith
compare_bytes-negate (x ∷ xs) (y ∷ ys) = ground (arith, compare_bytes-negate xs ys)

-- The result is -1 exactly when the left bytevector comes first in the lexicographic order of bytes,
-- 0 exactly when both are equal, and swapping the arguments negates it.
pub bytevector_compare_lem :
    (xs ys : List ℕ)
    → ((bytevector_compare xs ys ≡ negsuc 0) ↔ Lex xs ys)
      × ((bytevector_compare xs ys ≡ pos 0) ↔ (xs ≡ ys))
      × (bytevector_compare ys xs ≡ negate (bytevector_compare xs ys))
bytevector_compare_lem xs ys =
    rw (compare_bytes_lem xs ys, compare_bytes_lem ys xs)
      (compare_bytes-Lex xs ys, compare_bytes-eq xs ys, compare_bytes-negate xs ys)

Lex-trans : (xs ys zs : List ℕ) → Lex xs ys → Lex ys zs → Lex xs zs
Lex-trans xs ys [] p q = q
Lex-trans [] ys (z ∷ zs) p q = tt
Lex-trans (x ∷ xs) [] (z ∷ zs) p q = absurd p
Lex-trans (x ∷ xs) (y ∷ ys) (z ∷ zs) p q = ground (arith, Lex-trans xs ys zs)

-- Sorting by it is sound: less than is transitive.
pub bytevector_compare_trans :
    (xs ys zs : List ℕ)
    → bytevector_compare xs ys ≡ negsuc 0
    → bytevector_compare ys zs ≡ negsuc 0
    → bytevector_compare xs zs ≡ negsuc 0
bytevector_compare_trans xs ys zs p q = (bytevector_compare_lem xs zs).0.1 (
    Lex-trans xs ys zs ((bytevector_compare_lem xs ys).0.0 p)
      ((bytevector_compare_lem ys zs).0.0 q))
