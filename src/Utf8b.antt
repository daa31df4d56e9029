-- ===== src/Utf8b.antt =====
-- containers/containers.c: one UTF-8b sequence, written and read. An octet buffer with its length is
-- a list of numbers below 256; a codepoint is a uint32_t.
pub mod Plain
pub mod Encode
pub mod Decode
pub mod RoundTrip
mod Tests
use schemesh.Base.{
  ℕ, ◌-◌, ◌*◌, ◌/◌, ◌%◌, ◌^◌, ◌≤◌, ◌<◌, bit_and, bit_or, Bool, true, false, ◌&&◌, ◌||◌, not, List,
  [], ◌∷◌, ltb, leb, ◌==◌, if◌then◌else◌, ◌⊎◌,
}

abbrev pub IsByte : ℕ → Type 0
IsByte b = b < 256

-- `codepoint >= 0xDC80 && codepoint < 0xDD00`: stands for one byte that is not UTF-8.
abbrev pub is_raw_byte : ℕ → Bool
is_raw_byte c = leb 0xDC80 c && ltb c 0xDD00

unfoldable pub codepoint_to_utf8b_length : ℕ → ℕ
codepoint_to_utf8b_length codepoint =
    if ltb codepoint 0x800
    then (if ltb codepoint 0x80 then 1 else 2)
    else if is_raw_byte codepoint
    then 1
    else if ltb codepoint 0x10000
    then 3
    else 4

-- `0x80 | ((codepoint >> shift) & 0x3F)`
abbrev pub continuation : ℕ → ℕ → ℕ
continuation codepoint shift = bit_or 0x80 (bit_and (codepoint / 2 ^ shift) 0x3F)

-- The bytes written to `out`; the C function returns their number, and none is failure.
unfoldable pub codepoint_to_utf8b : ℕ → ℕ → List ℕ
codepoint_to_utf8b codepoint out_len =
    if ltb codepoint 0x80 || is_raw_byte codepoint
    then (if ltb 0 out_len then (codepoint % 256) ∷ [] else [])
    else if ltb codepoint 0x800
    then (if leb 2 out_len
        then bit_or 0xC0 (bit_and (codepoint / 2 ^ 6) 0x1F) ∷ continuation codepoint 0 ∷ []
        else [])
    else if ltb codepoint 0x10000
    then (if ltb codepoint 0xD800 || leb 0xE000 codepoint
        then (if leb 3 out_len
            then bit_or 0xE0 (bit_and (codepoint / 2 ^ 12) 0x0F)
              ∷ continuation codepoint 6
              ∷ continuation codepoint 0
              ∷ []
            else [])
        else [])
    else if ltb codepoint 0x110000
    then (if leb 4 out_len
        then bit_or 0xF0 (bit_and (codepoint / 2 ^ 18) 0x07)
          ∷ continuation codepoint 12
          ∷ continuation codepoint 6
          ∷ continuation codepoint 0
          ∷ []
        else [])
    else []

-- `(in & 0xC0) == 0x80`
abbrev pub is_continuation : ℕ → Bool
is_continuation b = bit_and b 0xC0 == 0x80

-- The values that two, three and four bytes carry; `<<` binds tighter than `|`.
abbrev pub val2 : ℕ → ℕ → ℕ
val2 in0 in1 = bit_or (bit_and in0 0x1F * 2 ^ 6) (bit_and in1 0x3F)

abbrev pub val3 : ℕ → ℕ → ℕ → ℕ
val3 in0 in1 in2 =
    bit_or (bit_or (bit_and in0 0x0F * 2 ^ 12) (bit_and in1 0x3F * 2 ^ 6)) (bit_and in2 0x3F)

abbrev pub val4 : ℕ → ℕ → ℕ → ℕ → ℕ
val4 in0 in1 in2 in3 =
    bit_or
      (bit_or (bit_or (bit_and in0 0x07 * 2 ^ 18) (bit_and in1 0x3F * 2 ^ 12))
        (bit_and in2 0x3F * 2 ^ 6))
      (bit_and in3 0x3F)

abbrev pub is_val3 : ℕ → Bool
is_val3 val = leb 0x800 val && (ltb val 0xD800 || leb 0xE000 val)

abbrev pub is_val4 : ℕ → Bool
is_val4 val = leb 0x10000 val && ltb val 0x110000

-- From the second, third and fourth byte on: an empty list is `in_len == 1`, `2` and `3`.
unfoldable pub length_from_in3 : ℕ → ℕ → ℕ → List ℕ → ℕ
length_from_in3 in0 in1 in2 [] = 1
length_from_in3 in0 in1 in2 (in3 ∷ rest) =
    if leb in0 0xF4 && is_continuation in3
    then (if is_val4 (val4 in0 in1 in2 in3) then 4 else 1)
    else 1

unfoldable pub length_from_in2 : ℕ → ℕ → List ℕ → ℕ
unfolding length_from_in3
length_from_in2 in0 in1 [] = 1
length_from_in2 in0 in1 (in2 ∷ rest) =
    if not (is_continuation in2)
    then 1
    else if ltb in0 0xF0
    then (if is_val3 (val3 in0 in1 in2) then 3 else 1)
    else length_from_in3 in0 in1 in2 rest

unfoldable pub length_from_in1 : ℕ → List ℕ → ℕ
unfolding length_from_in2
length_from_in1 in0 [] = 1
length_from_in1 in0 (in1 ∷ rest) =
    if ltb in0 0xC2 || ltb 0xF4 in0
    then 1
    else if not (is_continuation in1)
    then 1
    else if ltb in0 0xE0
    then 2
    else length_from_in2 in0 in1 rest

unfoldable pub utf8b_to_codepoint_length : List ℕ → ℕ
unfolding length_from_in1
utf8b_to_codepoint_length [] = 0
utf8b_to_codepoint_length (in0 ∷ rest) = if ltb in0 0x80 then 1 else length_from_in1 in0 rest

pub record U32pair : Type 0 where
  pub codepoint : ℕ
  pub length : ℕ

abbrev pub utf8_ok : ℕ → ℕ → U32pair
utf8_ok codepoint length = record { codepoint = codepoint; length = length }

-- `eof` is false for `eof == Sfalse`. The codepoint -1 is stored in a uint32_t.
abbrev pub utf8_incomplete : U32pair → ℕ → Bool → U32pair
utf8_incomplete ret in_len eof =
    if eof then ret else record { codepoint = 2 ^ 32 - 1; length = in_len }

-- What an invalid, overlong or truncated sequence is read as: its first byte alone.
abbrev pub raw_byte : ℕ → U32pair
raw_byte in0 = utf8_ok (bit_or 0xDC00 in0) 1

unfoldable pub decode_from_in3 : ℕ → ℕ → ℕ → List ℕ → Bool → U32pair
decode_from_in3 in0 in1 in2 [] eof = utf8_incomplete (raw_byte in0) 3 eof
decode_from_in3 in0 in1 in2 (in3 ∷ rest) eof =
    if leb in0 0xF4 && is_continuation in3
    then (let val = val4 in0 in1 in2 in3 in if is_val4 val then utf8_ok val 4 else raw_byte in0)
    else raw_byte in0

unfoldable pub decode_from_in2 : ℕ → ℕ → List ℕ → Bool → U32pair
unfolding decode_from_in3
decode_from_in2 in0 in1 [] eof = utf8_incomplete (raw_byte in0) 2 eof
decode_from_in2 in0 in1 (in2 ∷ rest) eof =
    if not (is_continuation in2)
    then raw_byte in0
    else if ltb in0 0xF0
    then (let val = val3 in0 in1 in2 in if is_val3 val then utf8_ok val 3 else raw_byte in0)
    else decode_from_in3 in0 in1 in2 rest eof

unfoldable pub decode_from_in1 : ℕ → List ℕ → Bool → U32pair
unfolding decode_from_in2
decode_from_in1 in0 [] eof = raw_byte in0
decode_from_in1 in0 (in1 ∷ rest) eof =
    if ltb in0 0xC2 || ltb 0xF4 in0
    then raw_byte in0
    else if not (is_continuation in1)
    then raw_byte in0
    else if ltb in0 0xE0
    then utf8_ok (val2 in0 in1) 2
    else decode_from_in2 in0 in1 rest eof

unfoldable pub utf8b_to_codepoint : List ℕ → Bool → U32pair
unfolding decode_from_in1
utf8b_to_codepoint [] eof = utf8_ok 0 0
utf8b_to_codepoint (in0 ∷ rest) eof =
    if ltb in0 0x80 then utf8_ok in0 1 else decode_from_in1 in0 rest eof

-- The codepoints that have a UTF-8b sequence: all Unicode scalar values, and the raw bytes.
abbrev pub IsScalar : ℕ → Type 0
IsScalar c = (c < 0xD800) ⊎ ((0xE000 ≤ c) × (c < 0x110000))
