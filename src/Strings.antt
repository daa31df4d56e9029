-- ===== src/Strings.antt =====
-- containers/containers.c: whole strings and bytevectors between UTF-32 and UTF-8b.
pub mod Spec
pub mod Encoding
pub mod Decoding
pub mod RoundTrip
pub mod Streaming
pub mod Scalars
mod Tests
use schemesh.Base.{
  ℕ, zero, suc, ◌+◌, ◌-◌, ◌*◌, ◌%◌, ◌^◌, min, bit_and, bit_or, Bool, true, false, ◌&&◌, ◌||◌,
  Option, none, some, List, [], ◌∷◌, ltb, leb, ◌==◌, if◌then◌else◌, length, set, take, drop,
}
use schemesh.Base.Int.{ℤ, pos, negsuc, pos_part, ltb_ℤ, leb_ℤ}
use schemesh.Scheme.{Ptr, sfalse, strue, snil, fixnum, char, string, bytevector, pair, is_truish}
use schemesh.Utf8b.{
  codepoint_to_utf8b_length, codepoint_to_utf8b, utf8b_to_codepoint_length, utf8b_to_codepoint,
  U32pair,
}

-- The loop `for (i = 0; i < len; i++) Sstring_set(string, i, 0xDC80 | (i & 0x7F))`.
unfoldable pub fill_loop : ℕ → List ℕ → List ℕ
fill_loop i [] = []
fill_loop i (c ∷ cs) = bit_or 0xDC80 (bit_and i 0x7F) ∷ fill_loop (suc i) cs

unfoldable pub string_fill_utf8b_surrogate_chars : Ptr → Ptr
unfolding fill_loop
string_fill_utf8b_surrogate_chars (string cs) = string (fill_loop 0 cs)
string_fill_utf8b_surrogate_chars p = p

unfoldable pub length_loop : List ℕ → ℕ → ℕ
length_loop [] result = result
length_loop (c ∷ cs) result = length_loop cs (result + codepoint_to_utf8b_length c)

-- The characters from `start` to `end` that the string has.
abbrev pub chars_in : List ℕ → ℕ → ℕ → List ℕ
chars_in cs start end = take (end - start) (drop start cs)

unfoldable pub string_to_utf8b_length : Ptr → ℤ → ℤ → ℕ
unfolding length_loop
string_to_utf8b_length (string cs) start end =
    if leb_ℤ (pos 0) start && ltb_ℤ start end
    then (let len = length cs in
        let i = (if ltb (pos_part start) len then pos_part start else len) in
        let iend = (if ltb (pos_part end) len then pos_part end else len) in
        length_loop (chars_in cs i iend) 0)
    else 0
string_to_utf8b_length _ start end = 0

-- `codepoint_to_utf8b(codepoint, out + opos, …)` stores its bytes from `opos` on.
abbrev pub write_bytes : List ℕ → ℕ → List ℕ → List ℕ
write_bytes bvec opos [] = bvec
write_bytes bvec opos (b ∷ bs) = write_bytes (set bvec opos b) (suc opos) bs

-- The result of the loop, and the bytevector that it wrote.
unfoldable pub append_loop : List ℕ → List ℕ → ℕ → Ptr × List ℕ
append_loop [] bvec opos = (fixnum (pos opos), bvec)
append_loop (c ∷ cs) bvec opos =
    let written = codepoint_to_utf8b c (length bvec - opos) in
    let rest = append_loop cs (write_bytes bvec opos written) (opos + length written) in
    if leb (length bvec) opos
    then (sfalse, bvec)
    else if length written == 0
    then (char c, bvec)
    else rest

unfoldable pub string_to_utf8b_append : Ptr → ℤ → ℤ → Ptr → ℤ → Ptr × Ptr
unfolding append_loop
string_to_utf8b_append (string cs) start end (bytevector bvec) ostart =
    if leb_ℤ (pos 0) start && leb_ℤ start end && leb_ℤ (pos 0) ostart
    then (let ilen = length cs in
        let ipos = (if ltb (pos_part start) ilen then pos_part start else ilen) in
        let iend =
          (if ltb (pos_part end) ilen
            then (if leb_ℤ start end then pos_part end else pos_part start)
            else ilen) in
        let (result, out) = append_loop (chars_in cs ipos iend) bvec (pos_part ostart) in
        (result, bytevector out))
    else (sfalse, bytevector bvec)
string_to_utf8b_append _ start end bvec ostart = (sfalse, bvec)

-- `while (len > 0)`: each round takes a byte at least, so `length bytes` rounds are enough.
unfoldable pub count_loop : ℕ → List ℕ → ℕ → ℕ
count_loop zero bytes ret = ret
count_loop (suc fuel) bytes ret =
    let consumed = utf8b_to_codepoint_length bytes in
    let rest = count_loop fuel (drop consumed bytes) (ret + 1) in
    if length bytes == 0
    then ret
    else if consumed == 0 || ltb (length bytes) consumed
    then ret
    else rest

unfoldable pub bytes_utf8b_to_string_length : List ℕ → ℕ
unfolding count_loop
bytes_utf8b_to_string_length bytes = count_loop (length bytes) bytes 0

pub record Sizepair : Type 0 where
  pub byte_n : ℕ
  pub char_n : ℕ

-- The input that is left, the string and the position behind the last character stored.
abbrev pub Filled : Type 0
Filled = List ℕ × List ℕ × ℕ

-- What `Sstring_set` leaves of a codepoint: it stores `codepoint << 8 | 0x16` in 32 bits.
abbrev pub string_char : ℕ → ℕ
string_char codepoint = codepoint % 2 ^ 24

unfoldable pub store_loop : ℕ → List ℕ → List ℕ → ℕ → ℕ → Bool → Filled
store_loop zero bytes str str_pos str_end eof = (bytes, str, str_pos)
store_loop (suc fuel) bytes str str_pos str_end eof =
    let p = utf8b_to_codepoint bytes eof in
    let rest =
      store_loop fuel (drop p.length bytes) (set str str_pos (string_char p.codepoint))
        (suc str_pos) str_end eof in
    if length bytes == 0
    then (bytes, str, str_pos)
    else if p.length == 0 || ltb (length bytes) p.length || leb str_end str_pos
    then (bytes, str, str_pos)
    else rest

unfoldable pub bytes_utf8b_to_string_append : List ℕ → List ℕ → ℕ → ℕ → Bool → Sizepair × List ℕ
unfolding store_loop
bytes_utf8b_to_string_append bytes str str_start str_end eof =
    if length bytes == 0 || leb str_end str_start
    then (record { byte_n = 0; char_n = 0 }, str)
    else (let (rest, str', str_pos) = store_loop (length bytes) bytes str str_start str_end eof in
        (record { byte_n = length bytes - length rest; char_n = str_pos - str_start }, str'))

-- The new string, and the new contents of `cons_eof`.
unfoldable pub bytevector_utf8b_to_string_append : Ptr → ℤ → ℤ → Ptr → ℤ → ℤ → Ptr → Ptr × Ptr
unfolding bytes_utf8b_to_string_append
bytevector_utf8b_to_string_append (bytevector bvec) bvec_start bvec_end (string str) str_start
      str_end (pair eof old) =
    if leb_ℤ (pos 0) bvec_start
      && leb_ℤ bvec_start bvec_end
      && leb_ℤ (pos 0) str_start
      && leb_ℤ str_start str_end
      && leb (pos_part bvec_end) (length bvec)
    then (let (ret, str') =
          bytes_utf8b_to_string_append (chars_in bvec (pos_part bvec_start) (pos_part bvec_end)) str
            (pos_part str_start) (pos_part str_end) (is_truish eof) in
        (string str', pair (fixnum (pos ret.byte_n)) (fixnum (pos ret.char_n))))
    else (string str, pair (fixnum (pos 0)) (fixnum (pos 0)))
bytevector_utf8b_to_string_append bvec bvec_start bvec_end str str_start str_end (pair eof old) =
    (str, pair (fixnum (pos 0)) (fixnum (pos 0)))
bytevector_utf8b_to_string_append bvec bvec_start bvec_end str str_start str_end cons_eof =
    (str, cons_eof)

-- The bytes in front of the first 0.
unfoldable pub until_zero : List ℕ → List ℕ
until_zero [] = []
until_zero (b ∷ bs) = let rest = until_zero bs in if b == 0 then [] else b ∷ rest

-- `smake_string` is Chez Scheme's `Smake_string(n, 0)`, where `none` is a raised condition.
module _ (smake_string : ℤ → Option (List ℕ)) where
  -- The string of all bytes, as it is made.
  abbrev pub sstring_of : List ℕ → Option (List ℕ)
  sstring_of bytes =
      let slen = bytes_utf8b_to_string_length bytes in
      let str_len = (if ltb slen (2 ^ 63) then pos slen else negsuc 0) in
      elim (smake_string str_len) [
        | none ↦ none
        | some str ↦
            let (ret, str') = bytes_utf8b_to_string_append bytes str 0 (pos_part str_len) true in
            if ret.byte_n == length bytes && ret.char_n == slen
            then some str'
            else smake_string (negsuc 0)
      ]

  -- The `len` bytes at `chars`; the value -1 of `len` is `none`.
  unfoldable pub sstring_utf8b : List ℕ → Option ℕ → Option (List ℕ)
  unfolding until_zero
  sstring_utf8b chars none = sstring_of (until_zero chars)
  sstring_utf8b chars (some n) = sstring_of (take n chars)
