-- ===== src/Bytevector/Hash.antt =====
-- The hash of a bytevector is a non-negative fixnum.
use schemesh.Base.{
  ℕ, ◌≡◌, refl, List, [], ◌∷◌, ◌++◌, ◌^◌, ◌*◌, ◌%◌, ◌<◌, bit_xor, arith, ◌-◌, ltb, Bool-cases, inl,
  inr, if◌then◌else◌,
}
use schemesh.Base.Int.{pos, ltb_ℤ}
use schemesh.Bytevector.{fnv1a_loop, fnv1a, bytevector_hash, hash_start, prime, sfixnum}

fnv1a_loop-lt : (hash : ℕ) (bytes : List ℕ) → hash < 2 ^ 64 → fnv1a_loop hash bytes < 2 ^ 64
unfolding fnv1a_loop
fnv1a_loop-lt hash [] h = h
fnv1a_loop-lt hash (b ∷ bs) h = fnv1a_loop-lt (bit_xor hash b * prime % 2 ^ 64) bs (omega arith)

-- The complement has the opposite sign bit.
unsigned_range :
    (hash : ℕ)
    → hash < 2 ^ 64
    → (n : ℕ) × ((if ltb_ℤ (sfixnum hash) (pos 0)
          then sfixnum (2 ^ 64 - 1 - hash)
          else sfixnum hash)
        ≡ pos n)
      × (n < 2 ^ 60)
unsigned_range hash h = elim (Bool-cases (ltb (hash % 2 ^ 61) (2 ^ 60))) [
  | inl low ↦ (hash % 2 ^ 61, ground arith, ground arith)
  | inr high ↦ ((2 ^ 64 - 1 - hash) % 2 ^ 61, ground arith, ground arith)
]

-- Whatever the bits of the 64-bit hash, the fixnum returned is in the range 0 to 2^60 - 1.
pub bytevector_hash_range :
    (bytes : List ℕ) → (n : ℕ) × (bytevector_hash bytes ≡ pos n) × (n < 2 ^ 60)
unfolding bytevector_hash
bytevector_hash_range bytes =
    unsigned_range (fnv1a bytes) (fnv1a_loop-lt hash_start bytes (omega arith))

-- A bytevector is hashed byte by byte: a prefix hashed first is no different.
pub fnv1a_loop-append :
    (hash : ℕ) (xs ys : List ℕ) → fnv1a_loop hash (xs ++ ys) ≡ fnv1a_loop (fnv1a_loop hash xs) ys
unfolding fnv1a_loop
fnv1a_loop-append hash [] ys = refl
fnv1a_loop-append hash (x ∷ xs) ys = fnv1a_loop-append (bit_xor hash x * prime % 2 ^ 64) xs ys
