-- ===== src/Posix/Redirect/Hex.antt =====
-- The hexadecimal digits in the message about an invalid redirection.
use schemesh.Base.{
  ℕ, zero, suc, ◌≡◌, ◌+◌, ◌-◌, ◌*◌, ◌/◌, ◌%◌, ◌^◌, ◌≤◌, ◌<◌, List, [], ◌∷◌, length, All, arith, leb,
  if◌then◌else◌, ◌⊎◌,
}
use schemesh.Base.Bits.{bit_and_low}
use native.Mathlib.Nat.{pow-suc}
use schemesh.Posix.Redirect.{to_hex_digit, hex_loop, ptr_to_hex}

-- The value of a digit 0 to 9 or A to F, and of a text of digits read from the left.
abbrev pub digit_value : ℕ → ℕ
digit_value c = if leb c b'9' then c - b'0' else c - b'A' + 10

abbrev pub read_hex : List ℕ → ℕ → ℕ
read_hex [] acc = acc
read_hex (c ∷ cs) acc = read_hex cs (acc * 16 + digit_value c)

abbrev pub IsHexDigit : ℕ → Type 0
IsHexDigit c = ((b'0' ≤ c) × (c ≤ b'9')) ⊎ ((b'A' ≤ c) × (c ≤ b'F'))

digit_of : (x : ℕ) → (digit_value (to_hex_digit x) ≡ x % 16) × IsHexDigit (to_hex_digit x)
unfolding to_hex_digit
digit_of x = ground (arith, bit_and_low 4 x)

hex_loop_lem :
    (fuel x : ℕ) (out : List ℕ)
    → x < 16 ^ suc fuel
    → (read_hex (hex_loop (suc fuel) x out) 0 ≡ read_hex out x)
      × (length (hex_loop (suc fuel) x out) ≤ length out + suc fuel)
      × (All IsHexDigit out → All IsHexDigit (hex_loop (suc fuel) x out))
unfolding hex_loop
hex_loop_lem zero x out h = ground (arith, digit_of x)
hex_loop_lem (suc fuel) x out h =
    ground
      (arith, digit_of x, pow-suc 16 (suc fuel), hex_loop_lem fuel (x / 16) (to_hex_digit x ∷ out))

-- The digits of a 64-bit word read back as the word; there are 1 to 16 of them, all hexadecimal.
pub ptr_to_hex_lem :
    (x : ℕ)
    → x < 2 ^ 64
    → (read_hex (ptr_to_hex x) 0 ≡ x) × (length (ptr_to_hex x) ≤ 16) × All IsHexDigit (ptr_to_hex x)
unfolding ptr_to_hex
ptr_to_hex_lem x h =
    let (value, size, digits) = hex_loop_lem 15 x [] (omega arith) in (value, size, digits tt)
