-- ===== src/Wire/Data.antt =====
-- wire/wire.ss and wire/get.ss: data that has data in it, `put/any` and `get/any`.
use schemesh.Base.{
  ℕ, zero, suc, ◌+◌, ◌-◌, ◌*◌, Bool, true, false, Option, none, some, List, [], ◌∷◌, ◌++◌, ltb, leb,
  ◌==◌, ◌&&◌, ◌||◌, if◌then◌else◌, length, take, drop,
}
use schemesh.Base.Int.{ℤ, pos, leb_ℤ, neg}
use schemesh.Wire.{
  Atom, Datum, integer, char, boolean, null, void, eof_object, bwp_object, string, bytevector,
  procedure, atom, box, pair, Read, got, failed, then_read, ◌>>=◌, le_bytes, le_value, vlen_size,
  char_len, bytes_per_char, put_atom, get_exact_s8, get_exact, get_char8, get_char, get_string,
  get_bytevector,
}

-- `(null? obj)`
abbrev pub is_null : Atom → Bool
is_null null = true
is_null a = false

-- The number of pairs of a list, and one more for the end of an improper list.
abbrev pub count_items : Datum → ℕ
count_items (atom a) = if is_null a then 0 else 1
count_items (box d) = 1
count_items (pair head tail) = suc (count_items tail)

-- The tag of a list that is proper or not.
abbrev pub list_tag : Datum → ℕ
list_tag (atom a) = if is_null a then 38 else 37
list_tag (box d) = 37
list_tag (pair head tail) = list_tag tail

-- `put/u32-fixnum`; a number of more than 32 bits raises.
abbrev pub put_u32_fixnum : ℕ → Option (List ℕ)
put_u32_fixnum n = if leb n 0xffffffff then some (le_bytes 4 n) else none

-- The bytes of `put/any`, and those that the loop of `put/list` writes from a tail of the list on.
-- `#f` and an exception are none.
unfoldable mutual
  unfolding put_atom

  pub put_any : Datum → Option (List ℕ)
  put_any (atom a) = put_atom a
  put_any (box d) = do bytes ← put_any d; some (34 ∷ bytes)
  put_any (pair head (atom tail)) = do
    first ← put_any head
    (if is_null tail
        then some (36 ∷ first)
        else (put_atom tail >>= λ second. some (35 ∷ (first ++ second))))
  put_any (pair head (box tail)) = do
    first ← put_any head
    second ← put_any tail
    some (35 ∷ (first ++ (34 ∷ second)))
  put_any (pair head (pair next tail)) = do
    first ← put_any head
    items ← put_items (pair next tail)
    size ← put_u32_fixnum (suc (count_items (pair next tail)))
    some (list_tag (pair next tail) ∷ (size ++ (first ++ items)))

  pub put_items : Datum → Option (List ℕ)
  put_items (atom a) = if is_null a then some [] else put_atom a
  put_items (box d) = do bytes ← put_any d; some (34 ∷ bytes)
  put_items (pair head tail) = do
    first ← put_any head
    items ← put_items tail
    some (first ++ items)

-- The bytes that `len/any` adds to its position, and the loop of `len/list`.
unfoldable pub len_exact_sint : ℤ → Option ℕ
len_exact_sint i =
    if leb_ℤ (neg 5) i && leb_ℤ i (pos 10)
    then some 1
    else if leb_ℤ (neg 0x80) i && leb_ℤ i (pos 0x7f)
    then some 2
    else if leb_ℤ (neg 0x8000) i && leb_ℤ i (pos 0x7fff)
    then some 3
    else if leb_ℤ (neg 0x800000) i && leb_ℤ i (pos 0x7fffff)
    then some 4
    else if leb_ℤ (neg 0x80000000) i && leb_ℤ i (pos 0x7fffffff)
    then some 5
    else none

unfoldable pub len_atom : Atom → Option ℕ
unfolding len_exact_sint vlen_size
len_atom (integer i) = len_exact_sint i
len_atom (char c) = some (1 + char_len c)
len_atom (string cs) = do n ← vlen_size (length cs); some (1 + length cs * bytes_per_char cs + n)
len_atom (bytevector bv) = do n ← vlen_size (length bv); some (1 + length bv + n)
len_atom procedure = none
len_atom _ = some 1

unfoldable mutual
  unfolding len_atom

  pub len_any : Datum → Option ℕ
  len_any (atom a) = len_atom a
  len_any (box d) = do n ← len_any d; some (1 + n)
  len_any (pair head (atom tail)) = do
    n ← len_any head
    (if is_null tail then some (1 + n) else (len_atom tail >>= λ k. some (1 + (n + k))))
  len_any (pair head (box tail)) = do n ← len_any head; k ← len_any tail; some (1 + (n + (1 + k)))
  len_any (pair head (pair next tail)) = do
    n ← len_any head
    k ← len_items (pair next tail)
    some (5 + (n + k))

  pub len_items : Datum → Option ℕ
  len_items (atom a) = if is_null a then some 0 else len_atom a
  len_items (box d) = do n ← len_any d; some (1 + n)
  len_items (pair head tail) = do n ← len_any head; k ← len_items tail; some (n + k)

unfoldable pub get_u32_fixnum : List ℕ → Read ℕ
get_u32_fixnum bytes =
    if leb 4 (length bytes) then got (le_value (take 4 bytes)) (drop 4 bytes) else failed

-- `get/list-impl`: the items in reverse order.
unfoldable pub get_list_impl : (List ℕ → Read Datum) → ℕ → List ℕ → List Datum → Read (List Datum)
get_list_impl read zero bytes ret = got ret bytes
get_list_impl read (suc n) bytes ret =
    if ltb (length bytes) (suc n)
    then failed
    else then_read (read bytes) (λ elem rest. get_list_impl read n rest (elem ∷ ret))

-- `reverse!` in front of a tail, and `list-reverse*!`.
abbrev pub reversed : List Datum → Datum → Datum
reversed [] tail = tail
reversed (d ∷ ret) tail = reversed ret (pair d tail)

abbrev pub list_reverse : List Datum → Datum
list_reverse [] = atom null
list_reverse (d ∷ []) = pair d (atom null)
list_reverse (d ∷ (other ∷ ret)) = reversed (other ∷ ret) d

-- The tags that stand for nothing in `known-tag`, which holds (void) there.
abbrev pub is_unused : ℕ → Bool
is_unused tag =
    tag == 49
    || tag == 50
    || tag == 54
    || tag == 56
    || tag == 60
    || tag == 65
    || tag == 71
    || tag == 73
    || tag == 84
    || (leb 89 tag && leb tag 241)
    || tag == 247
    || leb 251 tag

-- The table `known-tag`. The tags of data that is left out fail here.
unfoldable pub get_tagged : (List ℕ → Read Datum) → ℕ → List ℕ → Read Datum
unfolding get_exact_s8 get_exact get_char8 get_char get_string get_bytevector get_u32_fixnum
    get_list_impl
get_tagged read tag bytes =
    if leb tag 10
    then got (atom (integer (pos tag))) bytes
    else if leb tag 15
    then got (atom (integer (neg (16 - tag)))) bytes
    else if tag == 16
    then get_exact_s8 bytes
    else if leb tag 19
    then get_exact (tag - 15) bytes
    else if tag == 25
    then got (atom (boolean false)) bytes
    else if tag == 26
    then got (atom (boolean true)) bytes
    else if tag == 27
    then got (atom null) bytes
    else if tag == 28
    then got (atom void) bytes
    else if tag == 29
    then got (atom eof_object) bytes
    else if tag == 30
    then got (atom bwp_object) bytes
    else if tag == 31
    then get_char8 bytes
    else if leb 32 tag && leb tag 33
    then get_char (tag - 30) bytes
    else if tag == 34
    then then_read (read bytes) (λ d rest. got (box d) rest)
    else if tag == 35
    then then_read (read bytes)
        (λ head rest. then_read (read rest) (λ tail end. got (pair head tail) end))
    else if tag == 36
    then then_read (read bytes) (λ d rest. got (pair d (atom null)) rest)
    else if tag == 37
    then then_read (get_u32_fixnum bytes)
        (λ n rest. then_read (get_list_impl read n rest []) (λ ret end. got (list_reverse ret) end))
    else if tag == 38
    then then_read (get_u32_fixnum bytes) (λ n rest.
      then_read (get_list_impl read n rest []) (λ ret end. got (reversed ret (atom null)) end))
    else if tag == 40
    then get_bytevector bytes
    else if leb 41 tag && leb tag 43
    then get_string (tag - 40) bytes
    else if is_unused tag
    then got (atom void) bytes
    else failed

-- `get/any`. Each call in it has one byte less, so that the number of bytes is enough fuel.
unfoldable pub get_any : ℕ → List ℕ → Read Datum
unfolding get_tagged
get_any fuel [] = failed
get_any zero (tag ∷ bytes) = failed
get_any (suc fuel) (tag ∷ bytes) = get_tagged (get_any fuel) tag bytes
