-- ===== src/Strings/Scalars.antt =====
-- Strings of Unicode scalar values, to UTF-8 and back.
use schemesh.Base.{
  ℕ, ◌≡◌, refl, ◌∙◌, ◌<◌, ◌^◌, Option, some, List, [], ◌∷◌, length, replicate, All, arith, inl,
}
use schemesh.Base.Int.{ℤ, pos}
use schemesh.Scheme.{fixnum, string, bytevector}
use schemesh.Utf8b.{IsScalar}
use schemesh.Utf8b.Encode.{IsEncodable}
use schemesh.Strings.{string_to_utf8b_length, string_to_utf8b_append, sstring_utf8b}
use schemesh.Strings.Spec.{encode_all}
use schemesh.Strings.Decoding.{sstring_utf8b_lem}
use schemesh.Strings.Encoding.{string_to_utf8b_length_lem}
use schemesh.Strings.RoundTrip.{append_exactly, chars_in-all, decode_all-encode_all}

scalars_encodable : (cs : List ℕ) → All IsScalar cs → All IsEncodable cs
scalars_encodable [] h = tt
scalars_encodable (c ∷ cs) (s, h) = (inl s, scalars_encodable cs h)

-- Text survives: a string of Unicode scalar values, written into a bytevector of the length that
-- is promised for it, fewer than 2^63 bytes, is read back from the bytes as the same string. It
-- relies on `Smake_string` making a string of the length of that string.
pub sstring_utf8b-string_to_utf8b_append :
    (smake_string : ℤ → Option (List ℕ)) (cs bvec : List ℕ)
    → All IsScalar cs
    → length bvec ≡ string_to_utf8b_length (string cs) (pos 0) (pos (length cs))
    → length bvec < 2 ^ 63
    → smake_string (pos (length cs)) ≡ some (replicate (length cs) 0)
    → (bytes : List ℕ) × (string_to_utf8b_append
          (string cs)
          (pos 0)
          (pos (length cs))
          (bytevector bvec)
          (pos 0)
        ≡ (fixnum (pos (length bytes)), bytevector bytes))
      × (sstring_utf8b smake_string bytes (some (length bytes)) ≡ some cs)
sstring_utf8b-string_to_utf8b_append smake_string cs bvec scalars size small made =
    let ok = scalars_encodable cs scalars in
    let same = decode_all-encode_all cs scalars in
    let promised : length bvec ≡ length (encode_all cs) =
      size
      ∙ string_to_utf8b_length_lem cs 0 (length cs) (rw (chars_in-all cs) ok)
      ∙ rw (chars_in-all cs) in
    (
      encode_all cs,
      append_exactly cs bvec (encode_all cs) ok refl promised,
      sstring_utf8b_lem smake_string (encode_all cs) (omega arith) (rw same made) ∙ rw same,
    )
