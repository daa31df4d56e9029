-- ===== src/Strings/RoundTrip.antt =====
-- From bytes to a string and back.
use mathlib.Core.List.{append_assoc, append-nil}
use schemesh.Base.{
  take-all, drop-all, ℕ, zero, suc, ◌≡◌, refl, sym, ap, ◌∙◌, true, List, [], ◌∷◌, ◌++◌, length,
  drop, ◌≤◌, ◌<◌, ◌-◌, ◌^◌, arith, length-append, replicate, Option, some, inl, inr, All,
  take-append-drop,
}
use schemesh.Base.Int.{ℤ, pos}
use schemesh.Utf8b.{IsByte, IsScalar, codepoint_to_utf8b, utf8b_to_codepoint, U32pair}
use schemesh.Utf8b.Encode.{IsEncodable, length-encoded, codepoint_to_utf8b_length_pos}
use schemesh.Utf8b.Decode.{Sequence, ascii, two, three, four, raw, utf8b_to_codepoint-Sequence}
use schemesh.Utf8b.RoundTrip.{
  codepoint_to_utf8b-utf8b_to_codepoint, utf8b_to_codepoint-codepoint_to_utf8b,
}
use schemesh.Scheme.{string, bytevector, fixnum}
use schemesh.Strings.{
  string_to_utf8b_length, string_to_utf8b_append, sstring_utf8b, chars_in, string_char,
}
use schemesh.Strings.Encoding.{string_to_utf8b_length_lem, string_to_utf8b_append_lem}
use schemesh.Strings.Decoding.{sstring_utf8b_lem, length-decode_some-le}
use schemesh.Strings.Spec.{encode_all, decode_some, decode_all, decode_some-rest}

All-drop : (n : ℕ) (bs : List ℕ) → All IsByte bs → All IsByte (drop n bs)
All-drop zero bs h = h
All-drop (suc n) [] h = tt
All-drop (suc n) (b ∷ bs) h = All-drop n bs h.1

-- A string keeps all of a codepoint that is read.
Sequence-string_char :
    (bytes : List ℕ) (p : U32pair) → Sequence bytes p → string_char p.codepoint ≡ p.codepoint
Sequence-string_char bytes p (ascii b rest lo e f) = rw f (omega arith)
Sequence-string_char bytes p (raw b rest lo hi e f) = rw f (omega arith)
Sequence-string_char bytes p (two x y rest lo hx hy e f) = rw f (omega arith)
Sequence-string_char bytes p (three x y z rest hx hy hz lo gap e f) = rw f (omega arith)
Sequence-string_char bytes p (four w x y z rest hx hy hz lo hi e f) = rw f (omega arith)

read_kept :
    (b : ℕ) (bs : List ℕ)
    → All IsByte (b ∷ bs)
    → let c = (utf8b_to_codepoint (b ∷ bs) true).codepoint in string_char c ≡ c
read_kept b bs h =
    Sequence-string_char (b ∷ bs) (utf8b_to_codepoint (b ∷ bs) true)
      (utf8b_to_codepoint-Sequence b bs h)

scalar_kept : (c : ℕ) → IsScalar c → string_char c ≡ c
scalar_kept c (inl h) = omega arith
scalar_kept c (inr h) = omega arith

-- What is read, and what is left, is the buffer.
pub encode_all-decode_some :
    (n : ℕ) (bytes : List ℕ)
    → All IsByte bytes
    → encode_all (decode_some n bytes).0 ++ (decode_some n bytes).1 ≡ bytes
unfolding decode_some
encode_all-decode_some zero bytes h = refl
encode_all-decode_some (suc n) [] h = refl
encode_all-decode_some (suc n) (b ∷ bs) h =
    let p = utf8b_to_codepoint (b ∷ bs) true in
    let rest = drop p.length (b ∷ bs) in
    rw (read_kept b bs h) (
      append_assoc (codepoint_to_utf8b p.codepoint 4) (encode_all (decode_some n rest).0)
        (decode_some n rest).1
      ∙ rw
          (
            encode_all-decode_some n (drop p.length (b ∷ bs)) (All-drop p.length (b ∷ bs) h),
            codepoint_to_utf8b-utf8b_to_codepoint b bs 4 h (omega arith),
          )
          (take-append-drop p.length (b ∷ bs)))

Sequence-IsEncodable : (bytes : List ℕ) (p : U32pair) → Sequence bytes p → IsEncodable p.codepoint
Sequence-IsEncodable bytes p (ascii b rest lo e f) = rw f (omega arith)
Sequence-IsEncodable bytes p (raw b rest lo hi e f) = rw f (omega arith)
Sequence-IsEncodable bytes p (two x y rest lo hx hy e f) = rw f (omega arith)
Sequence-IsEncodable bytes p (three x y z rest hx hy hz lo gap e f) = rw f (omega arith)
Sequence-IsEncodable bytes p (four w x y z rest hx hy hz lo hi e f) = rw f (omega arith)

pub decode_some-IsEncodable :
    (n : ℕ) (bytes : List ℕ) → All IsByte bytes → All IsEncodable (decode_some n bytes).0
unfolding decode_some
decode_some-IsEncodable zero bytes h = tt
decode_some-IsEncodable (suc n) [] h = tt
decode_some-IsEncodable (suc n) (b ∷ bs) h =
    let p = utf8b_to_codepoint (b ∷ bs) true in
    (
      rw (read_kept b bs h) (Sequence-IsEncodable (b ∷ bs) p (utf8b_to_codepoint-Sequence b bs h)),
      decode_some-IsEncodable n (drop p.length (b ∷ bs)) (All-drop p.length (b ∷ bs) h),
    )

decode_some_step :
    (n : ℕ) (bytes : List ℕ)
    → 0 < length bytes
    → let p = utf8b_to_codepoint bytes true in
      let r = decode_some n (drop p.length bytes) in
      decode_some (suc n) bytes ≡ (string_char p.codepoint ∷ r.0, r.1)
unfolding decode_some
decode_some_step n [] h = absurd (omega arith)
decode_some_step n (b ∷ bs) h = refl

drop-length_append : (xs ys : List ℕ) → drop (length xs) (xs ++ ys) ≡ ys
drop-length_append [] ys = refl
drop-length_append (x ∷ xs) ys = drop-length_append xs ys

-- One character from the front of what was encoded.
decode_encoded :
    (n c : ℕ) (rest : List ℕ)
    → IsScalar c
    → decode_some (suc n) (codepoint_to_utf8b c 4 ++ rest)
      ≡ (c ∷ (decode_some n rest).0, (decode_some n rest).1)
decode_encoded n c rest s =
    let size = length-encoded c (inl s) in
    decode_some_step n (codepoint_to_utf8b c 4 ++ rest) (
      omega
        (arith, size, codepoint_to_utf8b_length_pos c, length-append (codepoint_to_utf8b c 4) rest))
    ∙ rw (
      utf8b_to_codepoint-codepoint_to_utf8b c 4 rest true s (omega arith),
      scalar_kept c s,
      ← size,
      drop-length_append (codepoint_to_utf8b c 4) rest,
    )

decode_all-encode_all_fuel :
    (n : ℕ) (cs : List ℕ)
    → All IsScalar cs
    → length cs ≤ n
    → decode_some n (encode_all cs) ≡ (cs, [])
unfolding decode_some
decode_all-encode_all_fuel zero [] h k = refl
decode_all-encode_all_fuel (suc n) [] h k = refl
decode_all-encode_all_fuel zero (c ∷ cs) (s, h) k = absurd (omega arith)
decode_all-encode_all_fuel (suc n) (c ∷ cs) (s, h) k =
    decode_encoded n c (encode_all cs) s ∙ rw (decode_all-encode_all_fuel n cs h (omega arith))

length-encode_all-ge : (cs : List ℕ) → All IsScalar cs → length cs ≤ length (encode_all cs)
length-encode_all-ge [] h = omega arith
length-encode_all-ge (c ∷ cs) (s, h) = omega (
  arith,
  length-encoded c (inl s),
  codepoint_to_utf8b_length_pos c,
  length-append (codepoint_to_utf8b c 4) (encode_all cs),
  length-encode_all-ge cs h,
)

-- A string of Unicode scalar values is read back from its UTF-8 bytes.
pub decode_all-encode_all : (cs : List ℕ) → All IsScalar cs → decode_all (encode_all cs) ≡ cs
decode_all-encode_all cs h =
    ap (λ r. r.0)
      (decode_all-encode_all_fuel (length (encode_all cs)) cs h (length-encode_all-ge cs h))

-- All the bytes of a buffer are the encoding of the string that is read from it.
pub encode_all-decode_all :
    (bytes : List ℕ) → All IsByte bytes → encode_all (decode_all bytes) ≡ bytes
encode_all-decode_all bytes h =
    sym (append-nil (encode_all (decode_all bytes)))
    ∙ rw (decode_some-rest (length bytes) bytes (omega arith)) at
        (encode_all-decode_some (length bytes) bytes h)

pub chars_in-all : (cs : List ℕ) → chars_in cs 0 (length cs) ≡ cs
chars_in-all cs =
    let e : length cs - 0 ≡ length cs = omega arith in rw e (take-all (length cs) cs (omega arith))

-- Writing the whole of a string into a bytevector of exactly its size.
pub append_exactly :
    (cs bvec bytes : List ℕ)
    → All IsEncodable cs
    → encode_all cs ≡ bytes
    → length bvec ≡ length bytes
    → string_to_utf8b_append (string cs) (pos 0) (pos (length cs)) (bytevector bvec) (pos 0)
      ≡ (fixnum (pos (length bytes)), bytevector bytes)
append_exactly cs bvec bytes ok e size =
    let all = chars_in-all cs in
    string_to_utf8b_append_lem cs bvec 0 (length cs) 0 (omega arith) (rw all ok)
      (rw (all, e) (omega arith))
    ∙ rw (all, e, drop-all (length bytes) bvec (omega arith), append-nil bytes) (ground arith)

-- Lossless: any bytes, valid UTF-8 or not, fewer than 2^63, that became a string are written back
-- from it unchanged into a bytevector of their length, which is the length that is promised for
-- the string. It relies on `Smake_string` making a string of the length that was counted.
pub string_to_utf8b_append-sstring_utf8b :
    (smake_string : ℤ → Option (List ℕ)) (bytes bvec : List ℕ)
    → All IsByte bytes
    → length bytes < 2 ^ 63
    → ((n : ℕ) → n ≤ length bytes → smake_string (pos n) ≡ some (replicate n 0))
    → length bvec ≡ length bytes
    → (str : List ℕ) × (sstring_utf8b smake_string bytes (some (length bytes)) ≡ some str)
      × (string_to_utf8b_length (string str) (pos 0) (pos (length str)) ≡ length bytes)
      × (string_to_utf8b_append (string str) (pos 0) (pos (length str)) (bytevector bvec) (pos 0)
          ≡ (fixnum (pos (length bytes)), bytevector bytes))
string_to_utf8b_append-sstring_utf8b smake_string bytes bvec h small made size =
    let cs = decode_all bytes in
    let ok = decode_some-IsEncodable (length bytes) bytes h in
    let e = encode_all-decode_all bytes h in
    (
      cs,
      sstring_utf8b_lem smake_string bytes small
          (made (length cs) (length-decode_some-le (length bytes) bytes)),
      string_to_utf8b_length_lem cs 0 (length cs) (rw (chars_in-all cs) ok)
          ∙ rw (chars_in-all cs, e),
      append_exactly cs bvec bytes ok e size,
    )
