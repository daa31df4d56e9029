-- ===== src/Wire/Chars.antt =====
-- Chars and strings are read as they were written.
use schemesh.Base.{
  ℕ, zero, suc, ◌+◌, ◌*◌, ◌%◌, ◌^◌, ◌≤◌, ◌<◌, ◌≡◌, refl, ◌∙◌, ap, sym, Bool, true, none, some, List,
  [], ◌∷◌, ◌++◌, leb, ◌&&◌, ◌||◌, if◌then◌else◌, length, take, drop, arith, Bool-cases, inl, inr,
  length-append, All, lt-cases,
}
use mathlib.Core.Path.{subst}
use mathlib.Core.List.{append_assoc}
use schemesh.ByteSpan.Lists.{take-length_append, drop-length_append}
use schemesh.Wire.{
  Datum, char, string, bytevector, atom, Read, got, failed, ◌>>=◌, le_bytes, put_vlen, max_vlen,
  char_len, put_char, char_of, get_char8, get_char, char_max, highest, bytes_per_char, chars_bytes,
  put_string, get_chars, get_string, get_string_chars, put_bytevector, get_bytevector,
}
use schemesh.Wire.Data.{get_tagged, get_any}
use schemesh.Wire.Lengths.{header, put_vlen-header, put_vlen-beyond, with_vlen-header}
use schemesh.Wire.Atoms.{
  Reads, Reads-eq, some-injective, length-le_bytes, value-le_bytes, take-le_bytes, drop-le_bytes,
  enough-le_bytes,
}

-- The numbers of chars: the scalar values, and those of bytes that are no text.
abbrev pub is_char : ℕ → Bool
is_char c = leb c 0xd7ff || (leb 0xdc80 c && leb c 0xdcff) || (leb 0xe000 c && leb c 0x10ffff)

abbrev pub all_chars : List ℕ → Bool
all_chars [] = true
all_chars (c ∷ cs) = is_char c && all_chars cs

char_of-is_char : (n c : ℕ) → is_char c ≡ true → char_of n c ≡ some c
unfolding char_of
char_of-is_char n c h = ground arith

-- A char takes no more bytes than its number.
char-fits : (c : ℕ) → is_char c ≡ true → c < 256 ^ char_len c
char-fits c h = elim (Bool-cases (leb c 0xff)) [
  | inl a ↦ rw a (ground arith)
  | inr a ↦ elim (Bool-cases (leb c 0xffff)) [
    | inl b ↦ rw (a, b) (ground arith)
    | inr b ↦ rw (a, b) (ground arith)
  ]
]

get_char-le_bytes :
    (n c : ℕ) (rest : List ℕ)
    → is_char c ≡ true
    → c < 256 ^ n
    → get_char n (le_bytes n c ++ rest) ≡ got (atom (char c)) rest
unfolding get_char
get_char-le_bytes n c rest h k =
    rw
      (
        get_char,
        enough-le_bytes n c rest,
        take-le_bytes n c rest,
        value-le_bytes n c k,
        char_of-is_char n c h,
        drop-le_bytes n c rest,
      )
      refl

tagged_char :
    (tag n c : ℕ)
    → is_char c ≡ true
    → c < 256 ^ n
    → ((read : List ℕ → Read Datum) (bytes : List ℕ) → get_tagged read tag bytes ≡ get_char n bytes)
    → Reads (tag ∷ le_bytes n c) (atom (char c))
unfolding get_any
tagged_char tag n c h k e fuel rest =
    e (get_any fuel) (le_bytes n c ++ rest) ∙ get_char-le_bytes n c rest h k

module _ (read : List ℕ → Read Datum) (bytes : List ℕ) where
  tag_char16 : get_tagged read 32 bytes ≡ get_char 2 bytes
  unfolding get_tagged
  tag_char16 = refl

  tag_char24 : get_tagged read 33 bytes ≡ get_char 3 bytes
  unfolding get_tagged
  tag_char24 = refl

char8-Reads : (c : ℕ) → c ≤ 0xff → Reads (31 ∷ le_bytes 1 c) (atom (char c))
unfolding get_any get_tagged get_char8
char8-Reads c h fuel rest =
    let low : c % 256 ≡ c = omega arith in ap (λ n. got (atom (char n)) rest) low

pub put_char-Reads : (c : ℕ) → is_char c ≡ true → Reads (put_char c) (atom (char c))
unfolding put_char
put_char-Reads c h = elim (Bool-cases (leb c 0xff)) [
  | inl a ↦
      let e : put_char c ≡ 31 ∷ le_bytes 1 c = rw (put_char, a) refl in
      Reads-eq e (char8-Reads c (ground arith))
  | inr a ↦ elim (Bool-cases (leb c 0xffff)) [
    | inl b ↦
        let e : put_char c ≡ 32 ∷ le_bytes 2 c = rw (put_char, a, b) refl in
        Reads-eq e (tagged_char 32 2 c h (ground arith) tag_char16)
    | inr b ↦
        let e : put_char c ≡ 33 ∷ le_bytes 3 c = rw (put_char, a, b) refl in
        Reads-eq e (tagged_char 33 3 c h (ground arith) tag_char24)
  ]
]

highest-ge : (m : ℕ) (cs : List ℕ) → m ≤ highest m cs
highest-ge m [] = omega arith
highest-ge m (c ∷ cs) = elim (Bool-cases (leb m 0xffff)) [
  | inl b ↦ rw b (ground (arith, highest-ge (char_max m c) cs))
  | inr b ↦ rw b (omega arith)
]

-- A highest char of at most two bytes is one.
highest-all : (m : ℕ) (cs : List ℕ) → highest m cs ≤ 0xffff → All (λ c. c ≤ highest m cs) cs
highest-all m [] h = tt
highest-all m (c ∷ cs) h = elim (Bool-cases (leb m 0xffff)) [
  | inl b ↦
      let e : highest m (c ∷ cs) ≡ highest (char_max m c) cs = rw b refl in
      let head : c ≤ highest (char_max m c) cs = ground (arith, highest-ge (char_max m c) cs) in
      let tail = highest-all (char_max m c) cs (rw e at h) in
      (subst (λ t. c ≤ t) (sym e) head, subst (λ t. All (λ x. x ≤ t) cs) (sym e) tail)
  | inr b ↦ absurd (ground (arith, rw b at h))
]

All-lt :
    (bound limit : ℕ) (cs : List ℕ)
    → bound < limit
    → All (λ c. c ≤ bound) cs
    → All (λ c. c < limit) cs
All-lt bound limit [] h a = tt
All-lt bound limit (c ∷ cs) h (b, a) = (omega arith, All-lt bound limit cs h a)

all_chars-lt : (cs : List ℕ) → all_chars cs ≡ true → All (λ c. c < 256 ^ 3) cs
all_chars-lt [] h = tt
all_chars-lt (c ∷ cs) h = (ground arith, all_chars-lt cs (ground arith))

-- All chars of a string fit in the bytes of its highest one.
bytes_per_char-fits :
    (cs : List ℕ) → all_chars cs ≡ true → All (λ c. c < 256 ^ bytes_per_char cs) cs
bytes_per_char-fits cs h = elim (Bool-cases (leb (highest 0 cs) 0xff)) [
  | inl a ↦ rw a (All-lt (highest 0 cs) 256 cs (ground arith) (highest-all 0 cs (ground arith)))
  | inr a ↦ elim (Bool-cases (leb (highest 0 cs) 0xffff)) [
    | inl b ↦
        rw (a, b) (All-lt (highest 0 cs) 65536 cs (ground arith) (highest-all 0 cs (ground arith)))
    | inr b ↦ rw (a, b) (all_chars-lt cs h)
  ]
]

pub length-chars_bytes : (n : ℕ) (cs : List ℕ) → length (chars_bytes n cs) ≡ length cs * n
length-chars_bytes n [] = omega arith
length-chars_bytes n (c ∷ cs) = omega (
  arith,
  length-append (le_bytes n c) (chars_bytes n cs),
  length-le_bytes n c,
  length-chars_bytes n cs,
)

one_at_least : (a n : ℕ) → 0 < n → a ≤ a * n
one_at_least zero n h = omega arith
one_at_least (suc a) n h = omega (arith, one_at_least a n h)

get_chars-chars_bytes :
    (n : ℕ) (cs rest : List ℕ)
    → all_chars cs ≡ true
    → All (λ c. c < 256 ^ n) cs
    → get_chars n (length cs) (chars_bytes n cs ++ rest) ≡ some cs
unfolding get_chars
get_chars-chars_bytes n [] rest h a = refl
get_chars-chars_bytes n (c ∷ cs) rest h (b, a) =
    let later = chars_bytes n cs ++ rest in
    let good : is_char c ≡ true = ground arith in
    rw
      (
        append_assoc (le_bytes n c) (chars_bytes n cs) rest,
        take-le_bytes n c later,
        drop-le_bytes n c later,
        value-le_bytes n c b,
        char_of-is_char n c good,
        get_chars-chars_bytes n cs rest (ground arith) a,
      )
      refl

tagged_string :
    (n : ℕ) (cs rest : List ℕ)
    → all_chars cs ≡ true
    → All (λ c. c < 256 ^ n) cs
    → 0 < n
    → length cs ≤ max_vlen
    → get_string n (header (length cs) ++ (chars_bytes n cs ++ rest)) ≡ got (atom (string cs)) rest
unfolding get_string get_string_chars
tagged_string n cs rest h a k m =
    let size = length-chars_bytes n cs in
    let whole = length-append (chars_bytes n cs) rest in
    let room : length cs * n ≤ length (chars_bytes n cs ++ rest) = omega arith in
    let some_room : length cs ≤ length cs * n = one_at_least (length cs) n k in
    let enough : leb (length cs * n) (length (chars_bytes n cs ++ rest)) ≡ true = ground arith in
    let later : drop (length cs * n) (chars_bytes n cs ++ rest) ≡ rest =
      ap (λ t. drop t (chars_bytes n cs ++ rest)) (sym size)
      ∙ drop-length_append (chars_bytes n cs) rest in
    with_vlen-header (length cs) (chars_bytes n cs ++ rest) (get_string_chars n) m (omega arith)
    ∙ rw (get_string_chars, enough, get_chars-chars_bytes n cs rest h a, later) refl

module _ (read : List ℕ → Read Datum) (bytes : List ℕ) where
  tag_string8 : get_tagged read 41 bytes ≡ get_string 1 bytes
  unfolding get_tagged
  tag_string8 = refl

  tag_string16 : get_tagged read 42 bytes ≡ get_string 2 bytes
  unfolding get_tagged
  tag_string16 = refl

  tag_string24 : get_tagged read 43 bytes ≡ get_string 3 bytes
  unfolding get_tagged
  tag_string24 = refl

  tag_string :
      (c : ℕ)
      → (get_tagged read (40 + char_len c) bytes ≡ get_string (char_len c) bytes) × (0 < char_len c)
  tag_string c = elim (Bool-cases (leb c 0xff)) [
    | inl a ↦ rw a (tag_string8, omega arith)
    | inr a ↦ elim (Bool-cases (leb c 0xffff)) [
      | inl b ↦ rw (a, b) (tag_string16, omega arith)
      | inr b ↦ rw (a, b) (tag_string24, omega arith)
    ]
  ]

-- The length of what was written is in range.
pub written :
    (v : ℕ) (f : List ℕ → List ℕ) (bytes : List ℕ)
    → (put_vlen v >>= λ h. some (f h)) ≡ some bytes
    → (v ≤ max_vlen) × (bytes ≡ f (header v))
written v f bytes e = elim (lt-cases max_vlen v) [
  | inl b ↦ let no : none ≡ some bytes = (rw (put_vlen-beyond v b) at e) in absurd (cc)
  | inr b ↦ (b, some-injective (sym e ∙ rw (put_vlen-header v b) refl))
]

pub put_string-Reads :
    (cs bytes : List ℕ)
    → all_chars cs ≡ true
    → put_string cs ≡ some bytes
    → Reads bytes (atom (string cs))
unfolding put_string get_any
put_string-Reads cs bytes h e fuel rest =
    let n = bytes_per_char cs in
    let f : List ℕ → List ℕ = λ t. (40 + n) ∷ (t ++ chars_bytes n cs) in
    let (small, same) = written (length cs) f bytes e in
    let (by_tag, some_byte) =
      tag_string (get_any fuel) ((header (length cs) ++ chars_bytes n cs) ++ rest) (highest 0 cs) in
    rw (same, by_tag, append_assoc (header (length cs)) (chars_bytes n cs) rest)
      (tagged_string n cs rest h (bytes_per_char-fits cs h) some_byte small)

pub put_bytevector-Reads :
    (bv bytes : List ℕ) → put_bytevector bv ≡ some bytes → Reads bytes (atom (bytevector bv))
unfolding put_bytevector get_any get_tagged get_bytevector
put_bytevector-Reads bv bytes e fuel rest =
    let (small, same) = written (length bv) (λ t. 40 ∷ (t ++ bv)) bytes e in
    let room : leb (length bv) (length (bv ++ rest)) ≡ true =
      ground (arith, length-append bv rest) in
    let f : ℕ → List ℕ → Read Datum =
      λ n t. if leb n (length t) then got (atom (bytevector (take n t))) (drop n t) else failed in
    rw (same, append_assoc (header (length bv)) bv rest)
      (with_vlen-header (length bv) (bv ++ rest) f small (omega (arith, length-append bv rest))
        ∙ rw (room, take-length_append bv rest, drop-length_append bv rest) refl)
