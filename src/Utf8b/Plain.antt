-- ===== src/Utf8b/Plain.antt =====
-- The masks and shifts of containers/containers.c as arithmetic.
use schemesh.Base.{ℕ, ◌+◌, ◌*◌, ◌/◌, ◌%◌, ◌^◌, ◌<◌, bit_and, bit_or, ◌≡◌, refl, arith}
use schemesh.Base.Bits.{bit_or_shifted, bit_and_low, agree, agree_below}
use schemesh.Utf8b.{val2, val3, val4}

pub continuation_plain : (x : ℕ) → bit_or 0x80 (bit_and x 0x3F) ≡ 0x80 + x % 64
continuation_plain x = omega (arith, bit_or_shifted 7 1 (bit_and x 0x3F), bit_and_low 6 x)

pub lead2_plain : (x : ℕ) → bit_or 0xC0 (bit_and x 0x1F) ≡ 0xC0 + x % 32
lead2_plain x = omega (arith, bit_or_shifted 5 6 (bit_and x 0x1F), bit_and_low 5 x)

pub lead3_plain : (x : ℕ) → bit_or 0xE0 (bit_and x 0x0F) ≡ 0xE0 + x % 16
lead3_plain x = omega (arith, bit_or_shifted 4 14 (bit_and x 0x0F), bit_and_low 4 x)

pub lead4_plain : (x : ℕ) → bit_or 0xF0 (bit_and x 0x07) ≡ 0xF0 + x % 8
lead4_plain x = omega (arith, bit_or_shifted 3 30 (bit_and x 0x07), bit_and_low 3 x)

pub raw_plain : (b : ℕ) → b < 256 → bit_or 0xDC00 b ≡ 0xDC00 + b
raw_plain b h = bit_or_shifted 8 0xDC b h

pub val2_plain : (a b : ℕ) → val2 a b ≡ a % 32 * 64 + b % 64
val2_plain a b =
    omega
      (arith, bit_or_shifted 6 (bit_and a 0x1F) (bit_and b 0x3F), bit_and_low 5 a, bit_and_low 6 b)

-- `x | r` is a sum where the low k bits of x are 0 and r has at most k bits.
join : (k x q r : ℕ) → x ≡ q * 2 ^ k → r < 2 ^ k → bit_or x r ≡ x + r
join k x q r e h = rw e (bit_or_shifted k q r h)

masked : (a : ℕ) → bit_and a 0x3F < 64
masked a = omega (arith, bit_and_low 6 a)

join_high : (h m : ℕ) → m < 64 → bit_or (h * 2 ^ 12) (m * 2 ^ 6) ≡ (h * 64 + m) * 2 ^ 6
join_high h m p = omega (arith, join 12 (h * 2 ^ 12) h (m * 2 ^ 6) refl (omega arith))

pub val3_plain : (a b c : ℕ) → val3 a b c ≡ a % 16 * 4096 + b % 64 * 64 + c % 64
val3_plain a b c =
    let high = join_high (bit_and a 0x0F) (bit_and b 0x3F) (masked b) in
    omega (
      arith,
      high,
      join 6 _ (bit_and a 0x0F * 64 + bit_and b 0x3F) (bit_and c 0x3F) high (masked c),
      bit_and_low 4 a,
      bit_and_low 6 b,
      bit_and_low 6 c,
    )

join_highest :
    (g h m : ℕ)
    → h < 64
    → m < 64
    → bit_or (bit_or (g * 2 ^ 18) (h * 2 ^ 12)) (m * 2 ^ 6) ≡ (g * 4096 + h * 64 + m) * 2 ^ 6
join_highest g h m p q =
    let high : bit_or (g * 2 ^ 18) (h * 2 ^ 12) ≡ (g * 64 + h) * 2 ^ 12 =
      omega (arith, join 18 (g * 2 ^ 18) g (h * 2 ^ 12) refl (omega arith)) in
    omega (arith, high, join 12 _ (g * 64 + h) (m * 2 ^ 6) high (omega arith))

pub val4_plain :
    (a b c d : ℕ) → val4 a b c d ≡ a % 8 * 262144 + b % 64 * 4096 + c % 64 * 64 + d % 64
val4_plain a b c d =
    let high =
      join_highest (bit_and a 0x07) (bit_and b 0x3F) (bit_and c 0x3F) (masked b) (masked c) in
    omega (
      arith,
      high,
      join 6 _ (bit_and a 0x07 * 4096 + bit_and b 0x3F * 64 + bit_and c 0x3F) (bit_and d 0x3F) high
          (masked d),
      bit_and_low 3 a,
      bit_and_low 6 b,
      bit_and_low 6 c,
      bit_and_low 6 d,
    )

-- The test of a continuation byte, 0x80 to 0xBF.
pub top_bits_plain : (b : ℕ) → b < 256 → bit_and b 0xC0 ≡ b / 64 * 64
unfolding agree
top_bits_plain = λ b h. agree_below (λ b. bit_and b 0xC0) (λ b. b / 64 * 64) 256 b refl h

pub ruleset plain = (
  arith, continuation_plain, lead2_plain, lead3_plain, lead4_plain, raw_plain, val2_plain,
  val3_plain, val4_plain, top_bits_plain,
)
