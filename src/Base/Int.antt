-- ===== src/Base/Int.antt =====
-- Signed C integers over the native numbers, under the library's names. Their range is stated where
-- it matters.
use schemesh.Base.{
  true, false, ◌≡◌, arith, ℕ, suc, ◌+◌, ◌-◌, ◌≤◌, Bool, ltb, leb, ◌==◌, ◌&&◌, if◌then◌else◌,
}

-- `negsuc n` is -(n + 1).
pub data ℤ : Type 0 where
  pos : ℕ → ℤ
  negsuc : ℕ → ℤ

abbrev pub pos_part : ℤ → ℕ
pos_part (pos n) = n
pos_part (negsuc n) = 0

abbrev pub neg_part : ℤ → ℕ
neg_part (pos n) = 0
neg_part (negsuc n) = suc n

-- a - b, as an integer.
abbrev pub sub_ℕ : ℕ → ℕ → ℤ
sub_ℕ a b = if leb b a then pos (a - b) else negsuc (b - a - 1)

-- -n
abbrev pub neg : ℕ → ℤ
neg n = sub_ℕ 0 n

abbrev pub negate : ℤ → ℤ
negate a = sub_ℕ (neg_part a) (pos_part a)

abbrev pub ltb_ℤ : ℤ → ℤ → Bool
ltb_ℤ a b = ltb (pos_part a + neg_part b) (pos_part b + neg_part a)

abbrev pub leb_ℤ : ℤ → ℤ → Bool
leb_ℤ a b = leb (pos_part a + neg_part b) (pos_part b + neg_part a)

abbrev pub eq_ℤ : ℤ → ℤ → Bool
eq_ℤ a b = pos_part a == pos_part b && neg_part a == neg_part b

infix 50 ◌<ℤ◌
abbrev pub ◌<ℤ◌ : ℤ → ℤ → Type 0
a <ℤ b = suc (pos_part a + neg_part b) ≤ pos_part b + neg_part a

-- The test of equality decides it.
pub eq-ℤ : (a b : ℤ) → eq_ℤ a b ≡ true → a ≡ b
eq-ℤ (pos a) (pos b) h = ground arith
eq-ℤ (pos a) (negsuc b) h = absurd (ground arith)
eq-ℤ (negsuc a) (pos b) h = absurd (ground arith)
eq-ℤ (negsuc a) (negsuc b) h = ground arith

pub eq-ℤ-sym : (a b : ℤ) → eq_ℤ a b ≡ false → eq_ℤ b a ≡ false
eq-ℤ-sym (pos a) (pos b) h = ground arith
eq-ℤ-sym (pos a) (negsuc b) h = ground arith
eq-ℤ-sym (negsuc a) (pos b) h = ground arith
eq-ℤ-sym (negsuc a) (negsuc b) h = ground arith
