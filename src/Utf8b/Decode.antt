-- ===== src/Utf8b/Decode.antt =====
-- What the two decoders read, on any bytes.
use schemesh.Base.{
  ℕ, ◌+◌, ◌-◌, ◌*◌, ◌≤◌, ◌<◌, ◌≡◌, ◌⊎◌, refl, true, Bool, List, [], ◌∷◌, length, All, arith,
  Bool-cases, leb, ltb, ◌&&◌, ◌||◌, inl, inr,
}
use schemesh.Utf8b.{
  IsByte, utf8b_to_codepoint, utf8b_to_codepoint_length, decode_from_in1, decode_from_in2,
  decode_from_in3, U32pair, utf8_ok, raw_byte, is_val3, is_val4, val2, val3, val4, is_continuation,
}
use schemesh.Utf8b.Plain.{raw_plain, val2_plain, val3_plain, val4_plain, top_bits_plain}

-- The decoder that only counts bytes agrees with the full one at the end of the input.
pub utf8b_to_codepoint-length :
    (bytes : List ℕ) → (utf8b_to_codepoint bytes true).length ≡ utf8b_to_codepoint_length bytes
unfolding utf8b_to_codepoint utf8b_to_codepoint_length
utf8b_to_codepoint-length [] = refl
utf8b_to_codepoint-length (a ∷ []) = ground arith
utf8b_to_codepoint-length (a ∷ b ∷ []) = ground arith
utf8b_to_codepoint-length (a ∷ b ∷ c ∷ []) = ground arith
utf8b_to_codepoint-length (a ∷ b ∷ c ∷ d ∷ rest) = ground arith

-- A byte at least is read from a buffer that has one, and never more than there is.
pub utf8b_to_codepoint_bounds :
    (b : ℕ) (rest : List ℕ) (eof : Bool)
    → let n = (utf8b_to_codepoint (b ∷ rest) eof).length in
      (0 < n) × (n ≤ 4) × (n ≤ length (b ∷ rest))
unfolding utf8b_to_codepoint
utf8b_to_codepoint_bounds a [] eof = ground arith
utf8b_to_codepoint_bounds a (b ∷ []) eof = ground arith
utf8b_to_codepoint_bounds a (b ∷ c ∷ []) eof = ground arith
utf8b_to_codepoint_bounds a (b ∷ c ∷ d ∷ rest) eof = ground arith

-- The UTF-8b sequence at the front of `bytes`, and what it stands for: the four forms of UTF-8
-- without overlong forms, surrogates and codepoints above 0x10FFFF, and a byte of no such form.
pub data Sequence (bytes : List ℕ) (p : U32pair) : Type 0 where
  ascii : (b : ℕ) (rest : List ℕ) → b < 0x80 → bytes ≡ b ∷ rest → p ≡ utf8_ok b 1 → Sequence bytes p
  two :
      (x y : ℕ) (rest : List ℕ)
      → 2 ≤ x
      → x < 32
      → y < 64
      → bytes ≡ (0xC0 + x) ∷ (0x80 + y) ∷ rest
      → p ≡ utf8_ok (x * 64 + y) 2
      → Sequence bytes p
  three :
      (x y z : ℕ) (rest : List ℕ)
      → x < 16
      → y < 64
      → z < 64
      → 0x800 ≤ x * 4096 + y * 64 + z
      → (x * 4096 + y * 64 + z < 0xD800) ⊎ (0xE000 ≤ x * 4096 + y * 64 + z)
      → bytes ≡ (0xE0 + x) ∷ (0x80 + y) ∷ (0x80 + z) ∷ rest
      → p ≡ utf8_ok (x * 4096 + y * 64 + z) 3
      → Sequence bytes p
  four :
      (w x y z : ℕ) (rest : List ℕ)
      → x < 64
      → y < 64
      → z < 64
      → 0x10000 ≤ w * 262144 + x * 4096 + y * 64 + z
      → w * 262144 + x * 4096 + y * 64 + z < 0x110000
      → bytes ≡ (0xF0 + w) ∷ (0x80 + x) ∷ (0x80 + y) ∷ (0x80 + z) ∷ rest
      → p ≡ utf8_ok (w * 262144 + x * 4096 + y * 64 + z) 4
      → Sequence bytes p
  raw :
      (b : ℕ) (rest : List ℕ)
      → 0x80 ≤ b
      → b < 256
      → bytes ≡ b ∷ rest
      → p ≡ utf8_ok (0xDC00 + b) 1
      → Sequence bytes p

raw_byte-Sequence : (b : ℕ) (rest : List ℕ) → 0x80 ≤ b → b < 256 → Sequence (b ∷ rest) (raw_byte b)
raw_byte-Sequence b rest h k = raw b rest h k refl (rw raw_plain)

continuation_range : (b : ℕ) → b < 256 → is_continuation b ≡ true → (0x80 ≤ b) × (b < 0xC0)
continuation_range b h e = ground (arith, top_bits_plain b)

-- The four forms, from the tests that the decoder makes.
two_bytes :
    (a b : ℕ) (rest : List ℕ)
    → 0xC2 ≤ a
    → a < 0xE0
    → (0x80 ≤ b) × (b < 0xC0)
    → Sequence (a ∷ b ∷ rest) (utf8_ok (val2 a b) 2)
two_bytes a b rest ha ka (hb, kb) =
    two (a - 0xC0) (b - 0x80) rest (omega arith) (omega arith) (omega arith) (ground arith)
      (ground (arith, val2_plain a b))

three_bytes :
    (a b c : ℕ) (rest : List ℕ)
    → 0xE0 ≤ a
    → a < 0xF0
    → (0x80 ≤ b) × (b < 0xC0)
    → (0x80 ≤ c) × (c < 0xC0)
    → is_val3 (val3 a b c) ≡ true
    → Sequence (a ∷ b ∷ c ∷ rest) (utf8_ok (val3 a b c) 3)
three_bytes a b c rest ha ka (hb, kb) (hc, kc) e =
    three (a - 0xE0) (b - 0x80) (c - 0x80) rest (omega arith) (omega arith) (omega arith)
      (ground (arith, val3_plain a b c)) (ground (arith, val3_plain a b c)) (ground arith)
      (ground (arith, val3_plain a b c))

four_bytes :
    (a b c d : ℕ) (rest : List ℕ)
    → 0xF0 ≤ a
    → a ≤ 0xF4
    → (0x80 ≤ b) × (b < 0xC0)
    → (0x80 ≤ c) × (c < 0xC0)
    → (0x80 ≤ d) × (d < 0xC0)
    → is_val4 (val4 a b c d) ≡ true
    → Sequence (a ∷ b ∷ c ∷ d ∷ rest) (utf8_ok (val4 a b c d) 4)
four_bytes a b c d rest ha ka (hb, kb) (hc, kc) (hd, kd) e =
    four (a - 0xF0) (b - 0x80) (c - 0x80) (d - 0x80) rest (omega arith) (omega arith) (omega arith)
      (ground (arith, val4_plain a b c d)) (ground (arith, val4_plain a b c d)) (ground arith)
      (ground (arith, val4_plain a b c d))

decode_from_in3-Sequence :
    (a b c : ℕ) (rest : List ℕ)
    → 0xF0 ≤ a
    → a < 256
    → All IsByte rest
    → (0x80 ≤ b) × (b < 0xC0)
    → (0x80 ≤ c) × (c < 0xC0)
    → Sequence (a ∷ b ∷ c ∷ rest) (decode_from_in3 a b c rest true)
unfolding decode_from_in3
decode_from_in3-Sequence a b c [] ha ka bs hb hc = raw_byte-Sequence a _ (omega arith) ka
decode_from_in3-Sequence a b c (d ∷ rest) ha ka (byte, bs) hb hc =
    elim (Bool-cases (leb a 0xF4 && is_continuation d)) [
      | inr e ↦ rw e (raw_byte-Sequence a _ (omega arith) ka)
      | inl e ↦ rw e (elim (Bool-cases (is_val4 (val4 a b c d))) [
        | inr f ↦ rw f (raw_byte-Sequence a _ (omega arith) ka)
        | inl f ↦ rw f (
            four_bytes a b c d rest ha (ground arith) hb hc
              (continuation_range d byte (ground arith)) f)
      ])
    ]

decode_from_in2-Sequence :
    (a b : ℕ) (rest : List ℕ)
    → 0xE0 ≤ a
    → a < 256
    → All IsByte rest
    → (0x80 ≤ b) × (b < 0xC0)
    → Sequence (a ∷ b ∷ rest) (decode_from_in2 a b rest true)
unfolding decode_from_in2
decode_from_in2-Sequence a b [] ha ka bs hb = raw_byte-Sequence a _ (omega arith) ka
decode_from_in2-Sequence a b (c ∷ rest) ha ka (byte, bs) hb =
    elim (Bool-cases (is_continuation c)) [
      | inr e ↦ rw e (raw_byte-Sequence a _ (omega arith) ka)
      | inl e ↦ rw e (elim (Bool-cases (ltb a 0xF0)) [
        | inr f ↦ rw f (
            decode_from_in3-Sequence a b c rest (ground arith) ka bs hb
              (continuation_range c byte e))
        | inl f ↦ rw f (elim (Bool-cases (is_val3 (val3 a b c))) [
          | inr g ↦ rw g (raw_byte-Sequence a _ (omega arith) ka)
          | inl g ↦
              rw g (three_bytes a b c rest ha (ground arith) hb (continuation_range c byte e) g)
        ])
      ])
    ]

decode_from_in1-Sequence :
    (a : ℕ) (rest : List ℕ)
    → 0x80 ≤ a
    → a < 256
    → All IsByte rest
    → Sequence (a ∷ rest) (decode_from_in1 a rest true)
unfolding decode_from_in1
decode_from_in1-Sequence a [] ha ka bs = raw_byte-Sequence a _ ha ka
decode_from_in1-Sequence a (b ∷ rest) ha ka (byte, bs) =
    elim (Bool-cases (ltb a 0xC2 || ltb 0xF4 a)) [
      | inl e ↦ rw e (raw_byte-Sequence a _ ha ka)
      | inr e ↦ rw e (elim (Bool-cases (is_continuation b)) [
        | inr f ↦ rw f (raw_byte-Sequence a _ ha ka)
        | inl f ↦ rw f (elim (Bool-cases (ltb a 0xE0)) [
          | inl g ↦
              rw g (two_bytes a b rest (ground arith) (ground arith) (continuation_range b byte f))
          | inr g ↦
              rw g (
                decode_from_in2-Sequence a b rest (ground arith) ka bs
                  (continuation_range b byte f))
        ])
      ])
    ]

-- On every buffer of bytes that is not empty, at the end of the input, the decoder reads a
-- sequence of the table.
pub utf8b_to_codepoint-Sequence :
    (b : ℕ) (rest : List ℕ)
    → All IsByte (b ∷ rest)
    → Sequence (b ∷ rest) (utf8b_to_codepoint (b ∷ rest) true)
unfolding utf8b_to_codepoint
utf8b_to_codepoint-Sequence b rest (byte, bs) = elim (Bool-cases (ltb b 0x80)) [
  | inl e ↦ rw e (ascii b rest (ground arith) refl refl)
  | inr e ↦ rw e (decode_from_in1-Sequence b rest (ground arith) byte bs)
]
