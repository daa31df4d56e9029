-- ===== src/Utf8b/Encode.antt =====
-- What `codepoint_to_utf8b` writes, against `codepoint_to_utf8b_length` and in plain arithmetic.
use schemesh.Base.{ℕ, ◌+◌, ◌*◌, ◌/◌, ◌^◌, ◌≤◌, ◌<◌, ◌≡◌, ◌⊎◌, ◌↔◌, [], ◌∷◌, length, All, arith}
use schemesh.Utf8b.{IsByte, IsScalar, codepoint_to_utf8b_length, codepoint_to_utf8b}
use schemesh.Utf8b.Plain.{continuation_plain, lead2_plain, lead3_plain, lead4_plain}

-- The codepoints with a UTF-8b sequence: Unicode scalar values and 0xDC80 to 0xDCFF.
abbrev pub IsEncodable : ℕ → Type 0
IsEncodable c = IsScalar c ⊎ ((0xDC80 ≤ c) × (c < 0xDD00))

-- Where the space suffices, an encodable codepoint is written in as many bytes as were promised.
pub length-codepoint_to_utf8b :
    (c n : ℕ)
    → IsEncodable c
    → codepoint_to_utf8b_length c ≤ n
    → length (codepoint_to_utf8b c n) ≡ codepoint_to_utf8b_length c
unfolding codepoint_to_utf8b codepoint_to_utf8b_length
length-codepoint_to_utf8b c n ok fits = ground arith

-- Nothing is written exactly when the codepoint has no sequence or the space is too small.
pub codepoint_to_utf8b-nil :
    (c n : ℕ)
    → (codepoint_to_utf8b c n ≡ []) ↔ ((¬ IsEncodable c) ⊎ (n < codepoint_to_utf8b_length c))
unfolding codepoint_to_utf8b codepoint_to_utf8b_length
codepoint_to_utf8b-nil c n = (λ e. ground arith, λ h. ground arith)

pub codepoint_to_utf8b-IsByte : (c n : ℕ) → All IsByte (codepoint_to_utf8b c n)
unfolding codepoint_to_utf8b
codepoint_to_utf8b-IsByte c n = ground (
  arith,
  lead2_plain (c / 2 ^ 6),
  lead3_plain (c / 2 ^ 12),
  lead4_plain (c / 2 ^ 18),
  continuation_plain (c / 2 ^ 0),
  continuation_plain (c / 2 ^ 6),
  continuation_plain (c / 2 ^ 12),
)

-- The sequences in plain arithmetic, by the number of bytes.
pub encode_ascii : (c n : ℕ) → c < 0x80 → 1 ≤ n → codepoint_to_utf8b c n ≡ c ∷ []
unfolding codepoint_to_utf8b
encode_ascii c n h fits = ground arith

pub encode_raw : (b n : ℕ) → 0x80 ≤ b → b < 256 → 1 ≤ n → codepoint_to_utf8b (0xDC00 + b) n ≡ b ∷ []
unfolding codepoint_to_utf8b
encode_raw b n h k fits = ground arith

pub encode_two :
    (x y n : ℕ)
    → 2 ≤ x
    → x < 32
    → y < 64
    → 2 ≤ n
    → codepoint_to_utf8b (x * 64 + y) n ≡ (0xC0 + x) ∷ (0x80 + y) ∷ []
unfolding codepoint_to_utf8b
encode_two x y n lo hx hy fits =
    let c = x * 64 + y in ground (arith, lead2_plain (c / 2 ^ 6), continuation_plain (c / 2 ^ 0))

pub encode_three :
    (x y z n : ℕ)
    → x < 16
    → y < 64
    → z < 64
    → 0x800 ≤ x * 4096 + y * 64 + z
    → (x * 4096 + y * 64 + z < 0xD800) ⊎ (0xE000 ≤ x * 4096 + y * 64 + z)
    → 3 ≤ n
    → codepoint_to_utf8b (x * 4096 + y * 64 + z) n ≡ (0xE0 + x) ∷ (0x80 + y) ∷ (0x80 + z) ∷ []
unfolding codepoint_to_utf8b
encode_three x y z n hx hy hz lo gap fits =
    let c = x * 4096 + y * 64 + z in
    ground (
      arith,
      lead3_plain (c / 2 ^ 12),
      continuation_plain (c / 2 ^ 6),
      continuation_plain (c / 2 ^ 0),
    )

pub encode_four :
    (w x y z n : ℕ)
    → x < 64
    → y < 64
    → z < 64
    → 0x10000 ≤ w * 262144 + x * 4096 + y * 64 + z
    → w * 262144 + x * 4096 + y * 64 + z < 0x110000
    → 4 ≤ n
    → codepoint_to_utf8b (w * 262144 + x * 4096 + y * 64 + z) n
      ≡ (0xF0 + w) ∷ (0x80 + x) ∷ (0x80 + y) ∷ (0x80 + z) ∷ []
unfolding codepoint_to_utf8b
encode_four w x y z n hx hy hz lo hi fits =
    let c = w * 262144 + x * 4096 + y * 64 + z in
    ground (
      arith,
      lead4_plain (c / 2 ^ 18),
      continuation_plain (c / 2 ^ 12),
      continuation_plain (c / 2 ^ 6),
      continuation_plain (c / 2 ^ 0),
    )

pub codepoint_to_utf8b_length_pos :
    (c : ℕ) → (1 ≤ codepoint_to_utf8b_length c) × (codepoint_to_utf8b_length c ≤ 4)
unfolding codepoint_to_utf8b_length
codepoint_to_utf8b_length_pos c = ground arith

pub length-encoded :
    (c : ℕ) → IsEncodable c → length (codepoint_to_utf8b c 4) ≡ codepoint_to_utf8b_length c
length-encoded c ok =
    length-codepoint_to_utf8b c 4 ok (omega (arith, codepoint_to_utf8b_length_pos c))

-- More space than is needed makes no difference.
pub codepoint_to_utf8b_space :
    (c n : ℕ)
    → IsEncodable c
    → codepoint_to_utf8b_length c ≤ n
    → codepoint_to_utf8b c n ≡ codepoint_to_utf8b c 4
unfolding codepoint_to_utf8b codepoint_to_utf8b_length
codepoint_to_utf8b_space c n ok fits = ground arith
