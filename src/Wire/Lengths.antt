-- ===== src/Wire/Lengths.antt =====
-- Lengths are read as they were written.
use schemesh.Base.{
  ℕ, zero, suc, ◌+◌, ◌*◌, ◌/◌, ◌%◌, ◌^◌, ◌≤◌, ◌<◌, ◌≡◌, refl, ◌∙◌, bit_and, bit_or, true, false,
  none, some, List, [], ◌∷◌, ◌++◌, ltb, leb, if◌then◌else◌, length, take, arith, Bool-cases, inl,
  inr,
}
use schemesh.Base.Bits.{bit_or_shifted, bit_or_low, bit_and_low, bit_and_without_byte}
use schemesh.Wire.{
  max_vlen, put_vlen, vlen_size, get_vlen, vlen_values, vlen, too_long, no_vlen, le_bytes, le_value,
  without_low_byte, with_vlen, Read,
}

-- The four bytes as a number.
abbrev pub long_vlen : ℕ → ℕ
long_vlen v = v / 128 * 256 + (128 + v % 128)

long_put :
    (v : ℕ)
    → v ≤ max_vlen
    → bit_or (without_low_byte (2 * v)) (bit_or 0x80 (bit_and v 0x7f)) ≡ long_vlen v
long_put v h =
    let hi : without_low_byte (2 * v) ≡ v / 128 * 2 ^ 8 =
      omega (arith, bit_and_without_byte (2 * v)) in
    let lo : bit_or 0x80 (v % 128) ≡ 128 + v % 128 = bit_or_shifted 7 1 (v % 128) (omega arith) in
    rw (hi, bit_and_low 7 v, lo) (bit_or_shifted 8 (v / 128) (128 + v % 128) (omega arith))

long_get :
    (v : ℕ)
    → v ≤ max_vlen
    → bit_or (bit_and (long_vlen v) 0x7f) (without_low_byte (long_vlen v) / 2) ≡ v
long_get v h =
    let lo : long_vlen v % 128 ≡ v % 128 = omega arith in
    let hi : without_low_byte (long_vlen v) / 2 ≡ v / 128 * 2 ^ 7 =
      omega (arith, bit_and_without_byte (long_vlen v)) in
    rw (bit_and_low 7 (long_vlen v), lo, hi)
      (bit_or_low 7 (v / 128) (v % 128) (omega arith) ∙ omega arith)

pub four_bytes : (u : ℕ) → u < 2 ^ 32 → le_value (le_bytes 4 u) ≡ u
four_bytes u h = omega arith

-- The bytes of a length.
unfoldable pub header : ℕ → List ℕ
header v = if leb v 0x7f then v ∷ [] else le_bytes 4 (long_vlen v)

abbrev pub header_size : ℕ → ℕ
header_size v = if leb v 0x7f then 1 else 4

pub length-header : (v : ℕ) → length (header v) ≡ header_size v
unfolding header
length-header v = elim (Bool-cases (leb v 0x7f)) [ inl b ↦ rw b refl | inr b ↦ rw b refl ]

pub put_vlen-header : (v : ℕ) → v ≤ max_vlen → put_vlen v ≡ some (header v)
unfolding put_vlen header
put_vlen-header v h = elim (Bool-cases (leb v 0x7f)) [
  | inl b ↦ rw (put_vlen, b) refl
  | inr b ↦ let c : leb v max_vlen ≡ true = ground arith in rw (put_vlen, b, c, long_put v h) refl
]

pub put_vlen-beyond : (v : ℕ) → max_vlen < v → put_vlen v ≡ none
unfolding put_vlen
put_vlen-beyond v h =
    let b : leb v 0x7f ≡ false = ground arith in
    let c : leb v max_vlen ≡ false = ground arith in rw (put_vlen, b, c) refl

pub vlen_size-header : (v : ℕ) → v ≤ max_vlen → vlen_size v ≡ some (header_size v)
unfolding vlen_size
vlen_size-header v h = elim (Bool-cases (leb v 0x7f)) [
  | inl b ↦ rw (vlen_size, b) refl
  | inr b ↦ let c : leb v max_vlen ≡ true = ground arith in rw (vlen_size, b, c) refl
]

-- Reading what was written, whether or not that many bytes follow.
pub get_vlen-header :
    (v : ℕ) (rest : List ℕ) → v ≤ max_vlen → get_vlen (header v ++ rest) ≡ vlen_values v rest
unfolding get_vlen header
get_vlen-header v rest h = elim (Bool-cases (leb v 0x7f)) [
  | inl b ↦ rw b (rw (get_vlen, b) refl)
  | inr b ↦
      let first : leb (long_vlen v % 256) 0x7f ≡ false = ground arith in
      let enough : leb 4 (suc (suc (suc (suc (length rest))))) ≡ true = ground arith in
      let u : le_value (le_bytes 4 (long_vlen v)) ≡ long_vlen v =
        four_bytes (long_vlen v) (omega arith) in
      rw b (rw (get_vlen, first, enough, u, long_get v h) refl)
]

pub vlen_values-enough :
    (v : ℕ) (rest : List ℕ) → v ≤ max_vlen → v ≤ length rest → vlen_values v rest ≡ vlen v rest
unfolding vlen_values
vlen_values-enough v rest h k =
    let b : ltb max_vlen v ≡ false = ground arith in
    let c : leb v (length rest) ≡ true = ground arith in rw (vlen_values, b, c) refl

pub vlen_values-short :
    (v : ℕ) (rest : List ℕ) → v ≤ max_vlen → length rest < v → vlen_values v rest ≡ too_long v
unfolding vlen_values
vlen_values-short v rest h k =
    let b : ltb max_vlen v ≡ false = ground arith in
    let c : leb v (length rest) ≡ false = ground arith in rw (vlen_values, b, c) refl

no_byte : (v : ℕ) → 0x7f < v → leb v 0x7f ≡ false
no_byte v h = ground arith

first_byte : (v : ℕ) → leb (long_vlen v % 256) 0x7f ≡ false
first_byte v = ground arith

-- A length of four bytes that is cut is no length.
pub get_vlen-cut : (v k : ℕ) → 0x7f < v → 0 < k → k < 4 → get_vlen (take k (header v)) ≡ no_vlen
unfolding get_vlen header
get_vlen-cut v zero l a b = absurd (omega arith)
get_vlen-cut v (suc zero) l a b = rw (no_byte v l) (rw (get_vlen, first_byte v) refl)
get_vlen-cut v (suc (suc zero)) l a b = rw (no_byte v l) (rw (get_vlen, first_byte v) refl)
get_vlen-cut v (suc (suc (suc zero))) l a b = rw (no_byte v l) (rw (get_vlen, first_byte v) refl)
get_vlen-cut v (suc (suc (suc (suc k)))) l a b = absurd (omega arith)

-- Behind a length that was written.
pub with_vlen-header :
    {B : Type 0} (v : ℕ) (rest : List ℕ) (f : ℕ → List ℕ → Read B)
    → v ≤ max_vlen
    → v ≤ length rest
    → with_vlen (header v ++ rest) f ≡ f v rest
with_vlen-header v rest f h k =
    rw (with_vlen, get_vlen-header v rest h ∙ vlen_values-enough v rest h k) refl
