-- ===== src/Base/Bits.antt =====
-- C's `&` and `|` as arithmetic: masks of low bits, and disjoint fields joined by `|`.
use Prim.Native.Nat.{digits, bitwise, bit_and-bitwise, bit_or-bitwise}
use native.Mathlib.Nat.{zero-add, suc-add, pow-suc, one-le-pow}
use schemesh.Base.{
  ℕ, zero, suc, ◌+◌, ◌-◌, ◌*◌, ◌/◌, ◌%◌, ◌^◌, ◌≤◌, ◌<◌, min, max, bit_and, bit_or, ◌≡◌, refl, ap,
  arith, Bool, true, ◌==◌, Bool-cases, inl, inr, false, if◌then◌else◌, ◌∙◌,
}

-- The operations are a recursion on binary digits with fuel; fuel beyond the first number is no
-- different.
module _ (z : ℕ → ℕ) (f : ℕ → ℕ → ℕ) where
  one_more : (a n b : ℕ) → a ≤ n → digits z f (suc n) a b ≡ digits z f n a b
  one_more zero zero b h = refl
  one_more zero (suc n) b h = refl
  one_more (suc a) zero b h = absurd (omega arith)
  one_more (suc a) (suc n) b h =
      ap (λ (t : ℕ). t * 2 + f (suc a % 2) (b % 2)) (one_more (suc a / 2) n (b / 2) (omega arith))

  any_more : (gap a b : ℕ) → digits z f (gap + a) a b ≡ digits z f a a b
  any_more zero a b = rw zero-add
  any_more (suc gap) a b = rw suc-add (one_more a (gap + a) b (omega arith) ∙ any_more gap a b)

  -- The fuel a is enough for half of suc a.
  lowest_digit :
      (a b : ℕ)
      → bitwise z f (suc a) b ≡ bitwise z f (suc a / 2) (b / 2) * 2 + f (suc a % 2) (b % 2)
  lowest_digit a b =
      let half = suc a / 2 in
      let e : a - half + half ≡ a = omega arith in
      ap (λ (t : ℕ). t * 2 + f (suc a % 2) (b % 2)) (rw e at (any_more (a - half) half (b / 2)))

or_digit : (a b : ℕ) → bit_or a b ≡ bit_or (a / 2) (b / 2) * 2 + max (a % 2) (b % 2)
or_digit zero b = simp bit_or-bitwise (omega arith)
or_digit (suc a) b = simp bit_or-bitwise (lowest_digit (λ y. y) max a b)

and_digit : (a b : ℕ) → bit_and a b ≡ bit_and (a / 2) (b / 2) * 2 + min (a % 2) (b % 2)
and_digit zero b = simp bit_and-bitwise (omega arith)
and_digit (suc a) b = simp bit_and-bitwise (lowest_digit (λ y. 0) min a b)

or_zero_below : (n a : ℕ) → a ≤ n → bit_or a 0 ≡ a
or_zero_below n zero h = refl
or_zero_below zero (suc a) h = absurd (omega arith)
or_zero_below (suc n) (suc a) h =
    omega (arith, or_digit (suc a) 0, or_zero_below n (suc a / 2) (omega arith))

and_zero_below : (n a : ℕ) → a ≤ n → bit_and a 0 ≡ 0
and_zero_below n zero h = refl
and_zero_below zero (suc a) h = absurd (omega arith)
and_zero_below (suc n) (suc a) h =
    omega (arith, and_digit (suc a) 0, and_zero_below n (suc a / 2) (omega arith))

double_pow : (q k : ℕ) → q * 2 ^ suc k ≡ 2 * (q * 2 ^ k)
double_pow q k = omega (arith, ap (λ (t : ℕ). q * t) (pow-suc 2 k))

-- `(q << k) | r`, where `r` has at most k bits.
pub bit_or_shifted : (k q r : ℕ) → r < 2 ^ k → bit_or (q * 2 ^ k) r ≡ q * 2 ^ k + r
bit_or_shifted zero q r fits = ground (arith, or_zero_below q q)
bit_or_shifted (suc k) q r fits =
    ground
      (arith, or_digit (q * 2 ^ suc k) r, double_pow q k, bit_or_shifted k q (r / 2) (omega arith))

low_part : (k q r : ℕ) → r < 2 ^ k → bit_and (q * 2 ^ k + r) (2 ^ k - 1) ≡ r
low_part zero q r fits = omega (arith, and_zero_below (q * 2 ^ 0 + r) (q * 2 ^ 0 + r))
low_part (suc k) q r fits = ground (
  arith,
  and_digit (q * 2 ^ suc k + r) (2 ^ suc k - 1),
  double_pow q k,
  pow-suc 2 k,
  low_part k q (r / 2) (omega arith),
)

-- A mask of k low bits.
pub bit_and_low : (k a : ℕ) → bit_and a (2 ^ k - 1) ≡ a % 2 ^ k
bit_and_low k a = ground (arith, one-le-pow k 2, low_part k (a / 2 ^ k) (a % 2 ^ k))

-- The same with the fields in the other order.
pub bit_or_low : (k q r : ℕ) → r < 2 ^ k → bit_or r (q * 2 ^ k) ≡ q * 2 ^ k + r
bit_or_low zero q zero fits = simp bit_or-bitwise (omega arith)
bit_or_low zero q (suc r) fits = absurd (omega arith)
bit_or_low (suc k) q r fits =
    ground (arith, or_digit r (q * 2 ^ suc k), double_pow q k, bit_or_low k q (r / 2) (omega arith))

and_even : (a b : ℕ) → bit_and a (b * 2) ≡ bit_and (a / 2) b * 2
and_even a b =
    let half : b * 2 / 2 ≡ b = omega arith in
    let even : b * 2 % 2 ≡ 0 = omega arith in
    let no_digit : min (a % 2) 0 ≡ 0 = omega arith in
    and_digit a (b * 2) ∙ rw (half, even, no_digit) (omega arith)

-- The 24 bits above the lowest byte.
pub bit_and_without_byte : (a : ℕ) → bit_and a 0xffffff00 ≡ a / 256 % 2 ^ 24 * 256
bit_and_without_byte a = omega (
  arith,
  and_even (a) 0x7fffff80,
  and_even (a / 2) 0x3fffffc0,
  and_even (a / 2 / 2) 0x1fffffe0,
  and_even (a / 2 / 2 / 2) 0x0ffffff0,
  and_even (a / 2 / 2 / 2 / 2) 0x07fffff8,
  and_even (a / 2 / 2 / 2 / 2 / 2) 0x03fffffc,
  and_even (a / 2 / 2 / 2 / 2 / 2 / 2) 0x01fffffe,
  and_even (a / 2 / 2 / 2 / 2 / 2 / 2 / 2) 0x00ffffff,
  bit_and_low 24 (a / 2 / 2 / 2 / 2 / 2 / 2 / 2 / 2),
)

-- Two functions that agree at each number below n, by computing them there.
unfoldable pub agree : (ℕ → ℕ) → (ℕ → ℕ) → ℕ → Bool
agree f g zero = true
agree f g (suc n) = let rest = agree f g n in if f n == g n then rest else false

pub agree_below : (f g : ℕ → ℕ) (n x : ℕ) → agree f g n ≡ true → x < n → f x ≡ g x
unfolding agree
agree_below f g zero x h lt = absurd (omega arith)
agree_below f g (suc n) x h lt = elim (Bool-cases (x == n)) [
  | inl e ↦ let p : x ≡ n = ground arith in rw p (ground arith)
  | inr e ↦ agree_below f g n x (ground arith) (ground arith)
]
