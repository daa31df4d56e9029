-- ===== src/Strings/Streaming.antt =====
-- The loop over a buffer that is not the end of the input, where a sequence is cut.
use schemesh.Base.{ℕ, suc, ◌≡◌, ◌≤◌, ◌<◌, ◌-◌, ◌^◌, false, List, [], ◌∷◌, length, arith}
use schemesh.Utf8b.{utf8b_to_codepoint, utf8_ok}
use schemesh.Utf8b.Plain.{top_bits_plain}
use schemesh.Strings.{bytes_utf8b_to_string_append, store_loop}

cut_sequence :
    (a b : ℕ)
    → 0xE0 ≤ a
    → a ≤ 0xF4
    → 0x80 ≤ b
    → b < 0xC0
    → utf8b_to_codepoint (a ∷ b ∷ []) false ≡ utf8_ok (2 ^ 32 - 1) 2
unfolding utf8b_to_codepoint
cut_sequence a b lo hi low high = ground (arith, top_bits_plain b (omega arith))

-- Two bytes that begin a sequence of three or four, at the end of a buffer but not of the input,
-- are consumed and stored in a string with space as the character 0xFFFFFF: they are not left
-- for the next buffer.
pub bytes_utf8b_to_string_append_cut :
    (a b c : ℕ) (str : List ℕ)
    → 0xE0 ≤ a
    → a ≤ 0xF4
    → 0x80 ≤ b
    → b < 0xC0
    → bytes_utf8b_to_string_append (a ∷ b ∷ []) (c ∷ str) 0 (suc (length str)) false
      ≡ (record { byte_n = 2; char_n = 1 }, (2 ^ 24 - 1) ∷ str)
unfolding bytes_utf8b_to_string_append store_loop
bytes_utf8b_to_string_append_cut a b c str lo hi low high =
    ground (arith, cut_sequence a b lo hi low high)
