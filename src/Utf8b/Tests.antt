-- ===== src/Utf8b/Tests.antt =====
-- containers/containers.c on single sequences: runs, and the theorems at concrete inputs.
use schemesh.Base.{ℕ, ◌≡◌, refl, true, false, [], ◌∷◌, ◌++◌, take, inl, arith, List}
use schemesh.Utf8b.{codepoint_to_utf8b, utf8b_to_codepoint, codepoint_to_utf8b_length, utf8_ok}
use schemesh.Utf8b.Decode.{Sequence, utf8b_to_codepoint-Sequence}
use schemesh.Utf8b.RoundTrip.{
  codepoint_to_utf8b-utf8b_to_codepoint, utf8b_to_codepoint-codepoint_to_utf8b,
}

abbrev euro_sign : List ℕ
euro_sign = 0xE2 ∷ 0x82 ∷ 0xAC ∷ []

abbrev cut_euro : List ℕ
cut_euro = 0xE2 ∷ 0x82 ∷ []

encode_euro : codepoint_to_utf8b 0x20AC 4 ≡ euro_sign
unfolding codepoint_to_utf8b
encode_euro = refl

decode_euro : utf8b_to_codepoint euro_sign false ≡ utf8_ok 0x20AC 3
unfolding utf8b_to_codepoint
decode_euro = refl

-- A cut sequence at the end of the input is a raw byte, and a surrogate has no sequence.
decode_cut_euro : utf8b_to_codepoint cut_euro true ≡ utf8_ok 0xDCE2 1
unfolding utf8b_to_codepoint
decode_cut_euro = refl

decode_surrogate : utf8b_to_codepoint (0xED ∷ 0xA0 ∷ 0x80 ∷ []) true ≡ utf8_ok 0xDCED 1
unfolding utf8b_to_codepoint
decode_surrogate = refl

decode_emoji : utf8b_to_codepoint (0xF0 ∷ 0x9F ∷ 0x98 ∷ 0x80 ∷ 65 ∷ []) true ≡ utf8_ok 0x1F600 4
unfolding utf8b_to_codepoint
decode_emoji = refl

encode_surrogate : codepoint_to_utf8b 0xD800 4 ≡ []
unfolding codepoint_to_utf8b
encode_surrogate = refl

encode_raw_byte : codepoint_to_utf8b 0xDCE2 1 ≡ 0xE2 ∷ []
unfolding codepoint_to_utf8b
encode_raw_byte = refl

codepoint_to_utf8b-utf8b_to_codepoint_example :
    let p = utf8b_to_codepoint cut_euro true in
    codepoint_to_utf8b p.codepoint 4 ≡ take p.length cut_euro
codepoint_to_utf8b-utf8b_to_codepoint_example =
    codepoint_to_utf8b-utf8b_to_codepoint 0xE2 (0x82 ∷ []) 4 (omega arith, (omega arith, tt))
      (omega arith)

utf8b_to_codepoint-codepoint_to_utf8b_example :
    utf8b_to_codepoint (codepoint_to_utf8b 0x20AC 5 ++ (65 ∷ [])) false
    ≡ utf8_ok 0x20AC (codepoint_to_utf8b_length 0x20AC)
utf8b_to_codepoint-codepoint_to_utf8b_example =
    utf8b_to_codepoint-codepoint_to_utf8b 0x20AC 5 (65 ∷ []) false (inl (omega arith)) (omega arith)

utf8b_to_codepoint-Sequence_example : Sequence euro_sign (utf8b_to_codepoint euro_sign true)
utf8b_to_codepoint-Sequence_example =
    utf8b_to_codepoint-Sequence 0xE2 (0x82 ∷ 0xAC ∷ [])
      (omega arith, (omega arith, (omega arith, tt)))
