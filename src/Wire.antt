-- ===== src/Wire.antt =====
-- wire/wire.ss and wire/get.ss: Scheme data as bytes. Writing at a position is the list of the bytes
-- written there, and reading is on the bytes from the position up to `end`, the end of the bytevector.
pub mod Lengths
pub mod Data
pub mod Atoms
pub mod Chars
pub mod Lists
pub mod Sizes
pub mod Items
pub mod RoundTrip
pub mod Message
pub mod Framing
pub mod Stream
pub mod Writes
mod Tests
use schemesh.Base.{
  ℕ, zero, suc, ◌+◌, ◌-◌, ◌*◌, ◌/◌, ◌%◌, ◌^◌, min, max, bit_and, bit_or, Bool, true, false, ◌&&◌,
  ◌||◌, not, Option, none, some, List, [], ◌∷◌, ◌++◌, ltb, leb, ◌==◌, if◌then◌else◌, length, take,
  drop,
}
use schemesh.Base.Int.{ℤ, pos, negsuc, neg, leb_ℤ}

-- Data that has no data in it. Integers are exact, and a char is its number.
pub data Atom : Type 0 where
  integer : ℤ → Atom
  char : ℕ → Atom
  boolean : Bool → Atom
  null void eof_object bwp_object : Atom
  string : List ℕ → Atom
  bytevector : List ℕ → Atom
  procedure : Atom

pub data Datum : Type 0 where
  atom : Atom → Datum
  box : Datum → Datum
  pair : Datum → Datum → Datum

-- What a reader returns: a value and the bytes behind it, or `(values #f #f)`. One that reads a byte
-- at `end` without a test raises an exception.
pub data Read (A : Type 0) : Type 0 where
  got : A → List ℕ → Read A
  failed raised : Read A

infixl 5 ◌>>=◌
abbrev pub ◌>>=◌ : {A B : Type 0} → Option A → (A → Option B) → Option B
none >>= f = none
some a >>= f = f a

abbrev pub then_read : {A B : Type 0} → Read A → (A → List ℕ → Read B) → Read B
then_read (got a bytes) f = f a bytes
then_read failed f = failed
then_read raised f = raised

-- `bytevector-uNN-set!` and `bytevector-uNN-ref`, little endian, of n bytes.
abbrev pub le_bytes : ℕ → ℕ → List ℕ
le_bytes zero v = []
le_bytes (suc n) v = v % 256 ∷ le_bytes n (v / 256)

abbrev pub le_value : List ℕ → ℕ
le_value [] = 0
le_value (b ∷ bytes) = b + 256 * le_value bytes

-- The same of signed numbers, in two's complement.
abbrev pub unsigned : ℕ → ℤ → ℕ
unsigned n (pos i) = i
unsigned n (negsuc i) = 256 ^ n - 1 - i

abbrev pub signed : ℕ → ℕ → ℤ
signed n u = if ltb (2 * u) (256 ^ n) then pos u else negsuc (256 ^ n - 1 - u)

abbrev pub max_vlen : ℕ
max_vlen = 0x7fffffff - 4

-- `(fxand (fxsll vlen 1) #xffffff00)`, and the same of u32.
abbrev pub without_low_byte : ℕ → ℕ
without_low_byte v = bit_and v 0xffffff00

unfoldable pub put_vlen : ℕ → Option (List ℕ)
put_vlen v =
    if leb v 0x7f
    then some (v ∷ [])
    else if leb v max_vlen
    then some (le_bytes 4 (bit_or (without_low_byte (2 * v)) (bit_or 0x80 (bit_and v 0x7f))))
    else none

-- `%vlen+`: the bytes of vlen.
unfoldable pub vlen_size : ℕ → Option ℕ
vlen_size v = if leb v 0x7f then some 1 else if leb v max_vlen then some 4 else none

-- What `get/vlen` returns: both values, only vlen, or none.
pub data Vlen : Type 0 where
  vlen : ℕ → List ℕ → Vlen
  too_long : ℕ → Vlen
  no_vlen : Vlen

unfoldable pub vlen_values : ℕ → List ℕ → Vlen
vlen_values v bytes =
    if ltb max_vlen v then no_vlen else if leb v (length bytes) then vlen v bytes else too_long v

unfoldable pub get_vlen : List ℕ → Vlen
unfolding vlen_values
get_vlen [] = no_vlen
get_vlen (lo ∷ bytes) =
    if leb lo 0x7f
    then vlen_values lo bytes
    else if leb 4 (length (lo ∷ bytes))
    then (let u32 = le_value (take 4 (lo ∷ bytes)) in
        vlen_values (bit_or (bit_and u32 0x7f) (without_low_byte u32 / 2)) (drop 4 (lo ∷ bytes)))
    else no_vlen

-- The callers of `get/vlen` that read n bytes or more.
abbrev pub with_vlen : {B : Type 0} → List ℕ → (ℕ → List ℕ → Read B) → Read B
with_vlen bytes f = elim (get_vlen bytes) [
  | vlen n rest ↦ f n rest
  | too_long n ↦ failed
  | no_vlen ↦ failed
]

-- `put/exact-sint`, of integers of at most 32 bits. The tag `tag-sint` of larger ones is left out.
unfoldable pub put_exact_sint : ℤ → Option (List ℕ)
put_exact_sint i =
    if leb_ℤ (pos 0) i && leb_ℤ i (pos 10)
    then some (unsigned 1 i ∷ [])
    else if leb_ℤ (neg 5) i && leb_ℤ i (neg 1)
    then some ((unsigned 1 i - 240) ∷ [])
    else if leb_ℤ (neg 0x80) i && leb_ℤ i (pos 0x7f)
    then some (16 ∷ le_bytes 1 (unsigned 1 i))
    else if leb_ℤ (neg 0x8000) i && leb_ℤ i (pos 0x7fff)
    then some (17 ∷ le_bytes 2 (unsigned 2 i))
    else if leb_ℤ (neg 0x800000) i && leb_ℤ i (pos 0x7fffff)
    then some (18 ∷ le_bytes 3 (unsigned 3 i))
    else if leb_ℤ (neg 0x80000000) i && leb_ℤ i (pos 0x7fffffff)
    then some (19 ∷ le_bytes 4 (unsigned 4 i))
    else none

-- `get/exact-s8` does not test the end.
unfoldable pub get_exact_s8 : List ℕ → Read Datum
get_exact_s8 [] = raised
get_exact_s8 (b ∷ bytes) = got (atom (integer (signed 1 b))) bytes

unfoldable pub get_exact : ℕ → List ℕ → Read Datum
get_exact n bytes =
    if leb n (length bytes)
    then got (atom (integer (signed n (le_value (take n bytes))))) (drop n bytes)
    else failed

-- `char-len`
abbrev pub char_len : ℕ → ℕ
char_len c = if leb c 0xff then 1 else if leb c 0xffff then 2 else 3

-- The tags of chars and strings of n bytes for each char.
unfoldable pub put_char : ℕ → List ℕ
put_char c = (30 + char_len c) ∷ le_bytes (char_len c) c

-- `%get/char8`, `%get/char16` and `%get/char24`
unfoldable pub char_of : ℕ → ℕ → Option ℕ
char_of n c =
    if leb n 1 || leb c 0xd7ff || (leb 0xe000 c && leb c 0x10ffff)
    then some c
    else if leb 0xdc80 c && leb c 0xdcff
    then some c
    else none

unfoldable pub get_char8 : List ℕ → Read Datum
get_char8 [] = raised
get_char8 (b ∷ bytes) = got (atom (char b)) bytes

unfoldable pub get_char : ℕ → List ℕ → Read Datum
get_char n bytes =
    if leb n (length bytes)
    then elim (char_of n (le_value (take n bytes))) [
      | none ↦ failed
      | some c ↦ got (atom (char c)) (drop n bytes)
    ]
    else failed

abbrev pub char_max : ℕ → ℕ → ℕ
char_max a b = if ltb a b then b else a

-- The loop of `bytes-per-char/string`, which stops at a char of three bytes.
abbrev pub highest : ℕ → List ℕ → ℕ
highest max_ch [] = max_ch
highest max_ch (c ∷ cs) = if leb max_ch 0xffff then highest (char_max max_ch c) cs else max_ch

abbrev pub bytes_per_char : List ℕ → ℕ
bytes_per_char cs = char_len (highest 0 cs)

abbrev pub chars_bytes : ℕ → List ℕ → List ℕ
chars_bytes n [] = []
chars_bytes n (c ∷ cs) = le_bytes n c ++ chars_bytes n cs

unfoldable pub put_string : List ℕ → Option (List ℕ)
put_string cs = do
  header ← put_vlen (length cs)
  some ((40 + bytes_per_char cs) ∷ (header ++ chars_bytes (bytes_per_char cs) cs))

-- The loop that reads count chars of n bytes.
unfoldable pub get_chars : ℕ → ℕ → List ℕ → Option (List ℕ)
get_chars n zero bytes = some []
get_chars n (suc count) bytes = do
  c ← char_of n (le_value (take n bytes))
  cs ← get_chars n count (drop n bytes)
  some (c ∷ cs)

-- The rest of `get/string8`, `get/string16` and `get/string24`, behind the number of chars.
unfoldable pub get_string_chars : ℕ → ℕ → List ℕ → Read Datum
unfolding get_chars
get_string_chars n count bytes =
    if leb (count * n) (length bytes)
    then elim (get_chars n count bytes) [
      | none ↦ failed
      | some cs ↦ got (atom (string cs)) (drop (count * n) bytes)
    ]
    else failed

unfoldable pub get_string : ℕ → List ℕ → Read Datum
unfolding get_string_chars
get_string n bytes = with_vlen bytes (get_string_chars n)

unfoldable pub put_bytevector : List ℕ → Option (List ℕ)
put_bytevector bv = do header ← put_vlen (length bv); some (40 ∷ (header ++ bv))

unfoldable pub get_bytevector : List ℕ → Read Datum
get_bytevector bytes = with_vlen bytes (λ n rest.
    if leb n (length rest) then got (atom (bytevector (take n rest))) (drop n rest) else failed)

unfoldable pub put_atom : Atom → Option (List ℕ)
unfolding put_exact_sint put_char put_string put_bytevector
put_atom (integer i) = put_exact_sint i
put_atom (char c) = some (put_char c)
put_atom (boolean b) = some (if b then 26 ∷ [] else 25 ∷ [])
put_atom null = some (27 ∷ [])
put_atom void = some (28 ∷ [])
put_atom eof_object = some (29 ∷ [])
put_atom bwp_object = some (30 ∷ [])
put_atom (string cs) = put_string cs
put_atom (bytevector bv) = put_bytevector bv
put_atom procedure = none
