-- ===== src/Utf8b/RoundTrip.antt =====
-- Encoding and decoding one sequence undo each other.
use mathlib.Core.Path.{subst}
use native.Mathlib.Decide.{dec_lt}
use schemesh.Base.{
  ℕ, ◌+◌, ◌*◌, ◌/◌, ◌%◌, ◌≤◌, ◌<◌, ◌≡◌, ◌⊎◌, true, Bool, List, ◌∷◌, ◌++◌, All, arith, take,
}
use schemesh.Utf8b.{
  IsByte, IsScalar, utf8b_to_codepoint, codepoint_to_utf8b, codepoint_to_utf8b_length, utf8_ok,
  U32pair,
}
use schemesh.Utf8b.Plain.{val2_plain, val3_plain, val4_plain, top_bits_plain}
use schemesh.Utf8b.Encode.{encode_ascii, encode_raw, encode_two, encode_three, encode_four}
use schemesh.Utf8b.Decode.{Sequence, ascii, two, three, four, raw, utf8b_to_codepoint-Sequence}

encode-Sequence :
    (bytes : List ℕ) (p : U32pair) (n : ℕ)
    → 4 ≤ n
    → Sequence bytes p
    → codepoint_to_utf8b p.codepoint n ≡ take p.length bytes
encode-Sequence bytes p n h (ascii b rest lo e f) = rw (e, f) (encode_ascii b n lo (omega arith))
encode-Sequence bytes p n h (raw b rest lo hi e f) = rw (e, f) (encode_raw b n lo hi (omega arith))
encode-Sequence bytes p n h (two x y rest lo hx hy e f) =
    rw (e, f) (encode_two x y n lo hx hy (omega arith))
encode-Sequence bytes p n h (three x y z rest hx hy hz lo gap e f) =
    rw (e, f) (encode_three x y z n hx hy hz lo gap (omega arith))
encode-Sequence bytes p n h (four w x y z rest hx hy hz lo hi e f) =
    rw (e, f) (encode_four w x y z n hx hy hz lo hi (omega arith))

-- Lossless: what is read from a buffer of bytes that is not empty, at the end of the input, is
-- written back in space for four bytes as the bytes it was read from.
pub codepoint_to_utf8b-utf8b_to_codepoint :
    (b : ℕ) (rest : List ℕ) (n : ℕ)
    → All IsByte (b ∷ rest)
    → 4 ≤ n
    → let p = utf8b_to_codepoint (b ∷ rest) true in
      codepoint_to_utf8b p.codepoint n ≡ take p.length (b ∷ rest)
codepoint_to_utf8b-utf8b_to_codepoint b rest n bs h =
    encode-Sequence (b ∷ rest) _ n h (utf8b_to_codepoint-Sequence b rest bs)

decode_two :
    (x y : ℕ) (rest : List ℕ) (eof : Bool)
    → 2 ≤ x
    → x < 32
    → y < 64
    → utf8b_to_codepoint ((0xC0 + x) ∷ (0x80 + y) ∷ rest) eof ≡ utf8_ok (x * 64 + y) 2
unfolding utf8b_to_codepoint
decode_two x y rest eof lo hx hy =
    ground (arith, val2_plain (0xC0 + x) (0x80 + y), top_bits_plain (0x80 + y))

decode_three :
    (x y z : ℕ) (rest : List ℕ) (eof : Bool)
    → x < 16
    → y < 64
    → z < 64
    → 0x800 ≤ x * 4096 + y * 64 + z
    → (x * 4096 + y * 64 + z < 0xD800) ⊎ (0xE000 ≤ x * 4096 + y * 64 + z)
    → utf8b_to_codepoint ((0xE0 + x) ∷ (0x80 + y) ∷ (0x80 + z) ∷ rest) eof
      ≡ utf8_ok (x * 4096 + y * 64 + z) 3
unfolding utf8b_to_codepoint
decode_three x y z rest eof hx hy hz lo gap = ground (
  arith,
  val3_plain (0xE0 + x) (0x80 + y) (0x80 + z),
  top_bits_plain (0x80 + y),
  top_bits_plain (0x80 + z),
)

decode_four :
    (w x y z : ℕ) (rest : List ℕ) (eof : Bool)
    → x < 64
    → y < 64
    → z < 64
    → 0x10000 ≤ w * 262144 + x * 4096 + y * 64 + z
    → w * 262144 + x * 4096 + y * 64 + z < 0x110000
    → utf8b_to_codepoint ((0xF0 + w) ∷ (0x80 + x) ∷ (0x80 + y) ∷ (0x80 + z) ∷ rest) eof
      ≡ utf8_ok (w * 262144 + x * 4096 + y * 64 + z) 4
unfolding utf8b_to_codepoint
decode_four w x y z rest eof hx hy hz lo hi = ground (
  arith,
  val4_plain (0xF0 + w) (0x80 + x) (0x80 + y) (0x80 + z),
  top_bits_plain (0x80 + x),
  top_bits_plain (0x80 + y),
  top_bits_plain (0x80 + z),
)

-- Decoding what was encoded gives the codepoint back, whatever follows and whatever `eof` says.
abbrev RoundTrips : ℕ → ℕ → List ℕ → Bool → Type 0
RoundTrips c n rest eof =
    utf8b_to_codepoint (codepoint_to_utf8b c n ++ rest) eof
    ≡ utf8_ok c (codepoint_to_utf8b_length c)

module _ (n : ℕ) (rest : List ℕ) (eof : Bool) (room : 4 ≤ n) where
  ascii_round : (c : ℕ) → c < 0x80 → RoundTrips c n rest eof
  unfolding codepoint_to_utf8b_length utf8b_to_codepoint
  ascii_round c h = rw (encode_ascii c n h (omega arith)) (ground arith)

  two_round : (x y : ℕ) → 2 ≤ x → x < 32 → y < 64 → RoundTrips (x * 64 + y) n rest eof
  unfolding codepoint_to_utf8b_length
  two_round x y lo hx hy =
      rw (encode_two x y n lo hx hy (omega arith), decode_two x y rest eof lo hx hy) (ground arith)

  three_round :
      (x y z : ℕ)
      → x < 16
      → y < 64
      → z < 64
      → 0x800 ≤ x * 4096 + y * 64 + z
      → (x * 4096 + y * 64 + z < 0xD800) ⊎ (0xE000 ≤ x * 4096 + y * 64 + z)
      → RoundTrips (x * 4096 + y * 64 + z) n rest eof
  unfolding codepoint_to_utf8b_length
  three_round x y z hx hy hz lo gap =
      rw
        (
          encode_three x y z n hx hy hz lo gap (omega arith),
          decode_three x y z rest eof hx hy hz lo gap,
        )
        (ground arith)

  four_round :
      (w x y z : ℕ)
      → x < 64
      → y < 64
      → z < 64
      → 0x10000 ≤ w * 262144 + x * 4096 + y * 64 + z
      → w * 262144 + x * 4096 + y * 64 + z < 0x110000
      → RoundTrips (w * 262144 + x * 4096 + y * 64 + z) n rest eof
  unfolding codepoint_to_utf8b_length
  four_round w x y z hx hy hz lo hi =
      rw (encode_four w x y z n hx hy hz lo hi room, decode_four w x y z rest eof hx hy hz lo hi)
        (ground arith)

  at_codepoint : (c d : ℕ) → d ≡ c → RoundTrips d n rest eof → RoundTrips c n rest eof
  at_codepoint c d e r = subst (λ k. RoundTrips k n rest eof) e r

  wide_round : (c : ℕ) → 0x800 ≤ c → IsScalar c → RoundTrips c n rest eof
  wide_round c lo s = elim (dec_lt c 0x10000) [
    | yes h ↦ at_codepoint c (c / 4096 * 4096 + c / 64 % 64 * 64 + c % 64) (omega arith) (
        three_round (c / 4096) (c / 64 % 64) (c % 64) (omega arith) (omega arith) (omega arith)
          (omega arith) (omega arith))
    | no h ↦
        at_codepoint c (c / 262144 * 262144 + c / 4096 % 64 * 4096 + c / 64 % 64 * 64 + c % 64)
          (omega arith)
          (four_round (c / 262144) (c / 4096 % 64) (c / 64 % 64) (c % 64) (omega arith)
            (omega arith) (omega arith) (omega arith) (omega arith))
  ]

  scalar_round : (c : ℕ) → IsScalar c → RoundTrips c n rest eof
  scalar_round c s = elim (dec_lt c 0x80) [
    | yes h ↦ ascii_round c h
    | no h ↦ elim (dec_lt c 0x800) [
      | yes k ↦
          at_codepoint c (c / 64 * 64 + c % 64) (omega arith)
            (two_round (c / 64) (c % 64) (omega arith) (omega arith) (omega arith))
      | no k ↦ wide_round c (omega arith) s
    ]
  ]

-- Every Unicode scalar value that is written in a buffer with space for four bytes is read back
-- with the number of bytes that were written, whatever follows and at the end of the input or not.
pub utf8b_to_codepoint-codepoint_to_utf8b :
    (c n : ℕ) (rest : List ℕ) (eof : Bool)
    → IsScalar c
    → 4 ≤ n
    → utf8b_to_codepoint (codepoint_to_utf8b c n ++ rest) eof
      ≡ utf8_ok c (codepoint_to_utf8b_length c)
utf8b_to_codepoint-codepoint_to_utf8b c n rest eof s h = scalar_round n rest eof h c s
