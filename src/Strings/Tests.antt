-- ===== src/Strings/Tests.antt =====
-- containers/containers.c on whole strings: runs, and the theorems at concrete inputs.
use schemesh.Base.{
  ℕ, ◌≡◌, refl, true, false, Option, none, some, [], ◌∷◌, ◌++◌, length, take, drop, replicate, inl,
  ◌-◌, ◌^◌, ◌+◌, arith, List, All,
}
use schemesh.Base.Int.{ℤ, pos, negsuc}
use schemesh.Scheme.{sfalse, fixnum, string, bytevector, pair, strue}
use schemesh.Utf8b.{
  codepoint_to_utf8b_length, codepoint_to_utf8b, utf8b_to_codepoint, utf8b_to_codepoint_length,
}
use schemesh.Utf8b.Encode.{IsEncodable}
use schemesh.Strings.{
  bytes_utf8b_to_string_append, bytes_utf8b_to_string_length, bytevector_utf8b_to_string_append,
  sstring_utf8b, string_to_utf8b_append, string_to_utf8b_length, chars_in,
  string_fill_utf8b_surrogate_chars,
}
use schemesh.Strings.Spec.{encode_all, decode_some}
use schemesh.Strings.Decoding.{bytes_utf8b_to_string_append_lem}
use schemesh.Strings.Encoding.{string_to_utf8b_append_lem}
use schemesh.Strings.RoundTrip.{string_to_utf8b_append-sstring_utf8b}
use schemesh.Strings.Scalars.{sstring_utf8b-string_to_utf8b_append}
use schemesh.Strings.Streaming.{bytes_utf8b_to_string_append_cut}

-- A string of zeros, and a condition for a length below 0.
abbrev make_string : ℤ → Option (List ℕ)
make_string (pos n) = some (replicate n 0)
make_string (negsuc n) = none

-- "a", the euro sign and a byte that is not UTF-8
abbrev mixed : List ℕ
mixed = 97 ∷ 0xE2 ∷ 0x82 ∷ 0xAC ∷ 0xFF ∷ []

abbrev mixed_string : List ℕ
mixed_string = 97 ∷ 0x20AC ∷ 0xDCFF ∷ []

decode_mixed : sstring_utf8b make_string mixed (some 5) ≡ some mixed_string
unfolding sstring_utf8b bytes_utf8b_to_string_length bytes_utf8b_to_string_append utf8b_to_codepoint
    utf8b_to_codepoint_length
decode_mixed = refl

decode_c_string : sstring_utf8b make_string (97 ∷ 98 ∷ 0 ∷ 99 ∷ []) none ≡ some (97 ∷ 98 ∷ [])
unfolding sstring_utf8b bytes_utf8b_to_string_length bytes_utf8b_to_string_append utf8b_to_codepoint
    utf8b_to_codepoint_length
decode_c_string = refl

encode_mixed :
    string_to_utf8b_append
      (string mixed_string)
      (pos 0)
      (pos 9)
      (bytevector (replicate 6 0))
      (pos 1)
    ≡ (fixnum (pos 6), bytevector (0 ∷ mixed))
unfolding string_to_utf8b_append codepoint_to_utf8b
encode_mixed = refl

full :
    string_to_utf8b_append (string (97 ∷ [])) (pos 0) (pos 1) (bytevector []) (pos 0)
    ≡ (sfalse, bytevector [])
unfolding string_to_utf8b_append codepoint_to_utf8b
full = refl

surrogates : string_fill_utf8b_surrogate_chars (string (0 ∷ 0 ∷ [])) ≡ string (0xDC80 ∷ 0xDC81 ∷ [])
unfolding string_fill_utf8b_surrogate_chars
surrogates = refl

append_from_bytevector :
    bytevector_utf8b_to_string_append
      (bytevector mixed)
      (pos 1)
      (pos 5)
      (string (0 ∷ 0 ∷ 0 ∷ []))
      (pos 0)
      (pos 2)
      (pair strue sfalse)
    ≡ (string (0x20AC ∷ 0xDCFF ∷ 0 ∷ []), pair (fixnum (pos 4)) (fixnum (pos 2)))
unfolding bytevector_utf8b_to_string_append utf8b_to_codepoint
append_from_bytevector = refl

string_to_utf8b_append-sstring_utf8b_example :
    (str : List ℕ) × (sstring_utf8b make_string mixed (some (length mixed)) ≡ some str)
    × (string_to_utf8b_length (string str) (pos 0) (pos (length str)) ≡ length mixed)
    × (string_to_utf8b_append
          (string str)
          (pos 0)
          (pos (length str))
          (bytevector (replicate 5 7))
          (pos 0)
        ≡ (fixnum (pos (length mixed)), bytevector mixed))
string_to_utf8b_append-sstring_utf8b_example =
    string_to_utf8b_append-sstring_utf8b make_string mixed (replicate 5 7)
      (omega arith, (omega arith, (omega arith, (omega arith, (omega arith, tt))))) (omega arith)
      (λ n h. refl) refl

bytes_utf8b_to_string_append_lem_example :
    let (out, rest) = decode_some (2 - 1) mixed in
    bytes_utf8b_to_string_append mixed (0 ∷ 0 ∷ 0 ∷ []) 1 2 true ≡ (
      record { byte_n = length mixed - length rest; char_n = length out },
      take 1 (0 ∷ 0 ∷ 0 ∷ []) ++ (out ++ drop (length out) (drop 1 (0 ∷ 0 ∷ 0 ∷ []))),
    )
bytes_utf8b_to_string_append_lem_example =
    bytes_utf8b_to_string_append_lem mixed (0 ∷ 0 ∷ 0 ∷ []) 1 2 (omega arith) (omega arith)

abbrev euro_encodable : All IsEncodable (0x20AC ∷ [])
euro_encodable = (inl (inl (omega arith)), tt)

string_to_utf8b_append_lem_example :
    let out = encode_all (chars_in mixed_string 1 2) in
    string_to_utf8b_append
      (string mixed_string)
      (pos 1)
      (pos 2)
      (bytevector (replicate 6 0))
      (pos 2)
    ≡ (
      fixnum (pos (2 + length out)),
      bytevector (take 2 (replicate 6 0) ++ (out ++ drop (length out) (drop 2 (replicate 6 0)))),
    )
unfolding codepoint_to_utf8b
string_to_utf8b_append_lem_example =
    string_to_utf8b_append_lem mixed_string (replicate 6 0) 1 2 2 (omega arith) euro_encodable
      (omega arith)

bytes_utf8b_to_string_append_cut_example :
    bytes_utf8b_to_string_append (0xE2 ∷ 0x82 ∷ []) (0 ∷ 0 ∷ []) 0 2 false
    ≡ (record { byte_n = 2; char_n = 1 }, (2 ^ 24 - 1) ∷ 0 ∷ [])
bytes_utf8b_to_string_append_cut_example =
    bytes_utf8b_to_string_append_cut 0xE2 0x82 0 (0 ∷ []) (omega arith) (omega arith) (omega arith)
      (omega arith)

sstring_utf8b-string_to_utf8b_append_example :
    (bytes : List ℕ) × (string_to_utf8b_append
        (string (0x20AC ∷ []))
        (pos 0)
        (pos 1)
        (bytevector (replicate 3 7))
        (pos 0)
      ≡ (fixnum (pos (length bytes)), bytevector bytes))
    × (sstring_utf8b make_string bytes (some (length bytes)) ≡ some (0x20AC ∷ []))
unfolding string_to_utf8b_length codepoint_to_utf8b_length
sstring_utf8b-string_to_utf8b_append_example =
    sstring_utf8b-string_to_utf8b_append make_string (0x20AC ∷ []) (replicate 3 7)
      (inl (omega arith), tt) refl (omega arith) refl
