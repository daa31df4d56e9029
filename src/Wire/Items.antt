-- ===== src/Wire/Items.antt =====
-- Data in data is read if its parts are.
use schemesh.Base.{
  ℕ, zero, suc, ◌≤◌, ◌<◌, ◌≡◌, refl, ◌∙◌, ap, Bool, true, false, none, some, List, [], ◌∷◌, ◌++◌,
  ltb, leb, ◌&&◌, length, arith, Bool-cases, inl, inr, length-append, ◌⊎◌,
}
use mathlib.Core.Path.{subst}
use mathlib.Core.List.{append_assoc}
use schemesh.Wire.{
  Atom, Datum, integer, char, boolean, null, void, eof_object, bwp_object, string, bytevector,
  procedure, atom, box, pair, got, failed, le_bytes, le_value, put_atom,
}
use schemesh.Wire.Data.{
  count_items, list_tag, put_u32_fixnum, get_u32_fixnum, get_list_impl, get_tagged, get_any,
}
use schemesh.Wire.Atoms.{Reads, Reads-some, put_exact_sint-Reads, some-injective, value-le_bytes}
use schemesh.Wire.Chars.{is_char, all_chars, put_char-Reads, put_string-Reads, put_bytevector-Reads}
use schemesh.Wire.Lists.{gathered, gathered-reversed, gathered-list_reverse}

-- All chars in the datum are chars.
abbrev pub plain_atom : Atom → Bool
plain_atom (char c) = is_char c
plain_atom (string cs) = all_chars cs
plain_atom a = true

abbrev pub plain : Datum → Bool
plain (atom a) = plain_atom a
plain (box d) = plain d
plain (pair head tail) = plain head && plain tail

pub put_atom-Reads :
    (a : Atom) (bytes : List ℕ)
    → plain_atom a ≡ true
    → put_atom a ≡ some bytes
    → Reads bytes (atom a)
unfolding put_atom get_any get_tagged
put_atom-Reads (integer i) bytes h e = put_exact_sint-Reads i bytes e
put_atom-Reads (char c) bytes h e = Reads-some e (put_char-Reads c h)
put_atom-Reads (boolean true) bytes h e = Reads-some e (λ fuel rest. refl)
put_atom-Reads (boolean false) bytes h e = Reads-some e (λ fuel rest. refl)
put_atom-Reads null bytes h e = Reads-some e (λ fuel rest. refl)
put_atom-Reads void bytes h e = Reads-some e (λ fuel rest. refl)
put_atom-Reads eof_object bytes h e = Reads-some e (λ fuel rest. refl)
put_atom-Reads bwp_object bytes h e = Reads-some e (λ fuel rest. refl)
put_atom-Reads (string cs) bytes h e = put_string-Reads cs bytes h e
put_atom-Reads (bytevector bv) bytes h e = put_bytevector-Reads bv bytes e
put_atom-Reads procedure bytes h e = absurd (cc)

-- Read with the number of the bytes as fuel.
abbrev pub ReadsIn : List ℕ → Datum → Type 0
ReadsIn bytes d =
    (fuel : ℕ) (rest : List ℕ) → length bytes ≤ fuel → get_any fuel (bytes ++ rest) ≡ got d rest

pub ReadsIn-nonempty : (bytes : List ℕ) (d : Datum) → ReadsIn bytes d → 0 < length bytes
unfolding get_any
ReadsIn-nonempty [] d r = let no : failed ≡ got d [] = r 0 [] (omega arith) in absurd (cc)
ReadsIn-nonempty (b ∷ bytes) d r = omega arith

pub Reads-nonempty : (bytes : List ℕ) (d : Datum) → Reads bytes d → 0 < length bytes
unfolding get_any
Reads-nonempty [] d r = let no : failed ≡ got d [] = r 0 [] in absurd (cc)
Reads-nonempty (b ∷ bytes) d r = omega arith

pub put_atom-ReadsIn :
    (a : Atom) (bytes : List ℕ)
    → plain_atom a ≡ true
    → put_atom a ≡ some bytes
    → ReadsIn bytes (atom a)
put_atom-ReadsIn a bytes h e zero rest k =
    absurd (omega (arith, Reads-nonempty bytes (atom a) (put_atom-Reads a bytes h e)))
put_atom-ReadsIn a bytes h e (suc fuel) rest k = put_atom-Reads a bytes h e fuel rest

-- The items of a list, read by the loop.
abbrev pub ItemsIn : List ℕ → Datum → Type 0
ItemsIn bytes d =
    (count_items d ≤ length bytes)
    × ((fuel : ℕ) (rest : List ℕ) (ret : List Datum)
        → length bytes ≤ fuel
        → get_list_impl (get_any fuel) (count_items d) (bytes ++ rest) ret
          ≡ got (gathered d ret) rest)

pub last_item :
    (bytes : List ℕ) (d : Datum)
    → ReadsIn bytes d
    → (1 ≤ length bytes)
      × ((fuel : ℕ) (rest : List ℕ) (ret : List Datum)
          → length bytes ≤ fuel
          → get_list_impl (get_any fuel) 1 (bytes ++ rest) ret ≡ got (d ∷ ret) rest)
unfolding get_list_impl
last_item bytes d r =
    let some_byte = ReadsIn-nonempty bytes d r in
    (
      some_byte,
      λ fuel rest ret k.
          let b : ltb (length (bytes ++ rest)) 1 ≡ false =
            ground (arith, length-append bytes rest) in
          rw (b, r fuel rest k) refl,
    )

pub next_item :
    (first items : List ℕ) (head tail : Datum)
    → ReadsIn first head
    → ItemsIn items tail
    → ItemsIn (first ++ items) (pair head tail)
unfolding get_list_impl
next_item first items head tail r (n, q) =
    let some_byte = ReadsIn-nonempty first head r in
    let whole = length-append first items in
    (
      omega arith,
      λ fuel rest ret k.
          let b : ltb (length ((first ++ items) ++ rest)) (suc (count_items tail)) ≡ false =
            ground (arith, length-append (first ++ items) rest) in
          rw (b, append_assoc first items rest, r fuel (items ++ rest) (omega arith))
            (q fuel rest (head ∷ ret) (omega arith)),
    )

pub boxed : (bytes : List ℕ) (d : Datum) → ReadsIn bytes d → ReadsIn (34 ∷ bytes) (box d)
unfolding get_any get_tagged
boxed bytes d r zero rest k = absurd (omega arith)
boxed bytes d r (suc fuel) rest k = rw (r fuel rest (omega arith)) refl

pub paired :
    (first second : List ℕ) (head tail : Datum)
    → ReadsIn first head
    → ReadsIn second tail
    → ReadsIn (35 ∷ (first ++ second)) (pair head tail)
unfolding get_any get_tagged
paired first second head tail r q zero rest k = absurd (omega arith)
paired first second head tail r q (suc fuel) rest k =
    let whole = length-append first second in
    rw (append_assoc first second rest, r fuel (second ++ rest) (omega arith))
      (rw (q fuel rest (omega arith)) refl)

pub alone :
    (bytes : List ℕ) (d : Datum) → ReadsIn bytes d → ReadsIn (36 ∷ bytes) (pair d (atom null))
unfolding get_any get_tagged
alone bytes d r zero rest k = absurd (omega arith)
alone bytes d r (suc fuel) rest k = rw (r fuel rest (omega arith)) refl

pub read_u32 :
    (n : ℕ) (size rest : List ℕ)
    → put_u32_fixnum n ≡ some size
    → (get_u32_fixnum (size ++ rest) ≡ got n rest) × (length size ≡ 4)
unfolding get_u32_fixnum
read_u32 n size rest e = elim (Bool-cases (leb n 0xffffffff)) [
  | inl b ↦
      let same : le_bytes 4 n ≡ size = some-injective (rw b at e) in
      let enough : leb 4 (suc (suc (suc (suc (length rest))))) ≡ true = ground arith in
      let value : le_value (le_bytes 4 n) ≡ n = value-le_bytes 4 n (ground arith) in
      subst (λ t. (get_u32_fixnum (t ++ rest) ≡ got n rest) × (length t ≡ 4)) same
        (rw (get_u32_fixnum, enough, value) refl, refl)
  | inr b ↦ let no : none ≡ some size = (rw b at e) in absurd (cc)
]

module _ (head tail : Datum) (items size : List ℕ) where
  abbrev pub whole : Datum
  whole = pair head tail

  -- A list with its number of items in front.
  pub counted :
      ItemsIn items whole
      → put_u32_fixnum (count_items whole) ≡ some size
      → (tag : ℕ) → list_tag tail ≡ tag
      → (tag ≡ 38) ⊎ (tag ≡ 37)
      → ReadsIn (tag ∷ (size ++ items)) whole
  unfolding get_any get_tagged
  counted (n, q) e tag t c zero rest k = absurd (omega arith)
  counted (n, q) e tag t (inl c) (suc fuel) rest k =
      let (u, four) = read_u32 (count_items whole) size (items ++ rest) e in
      let gathered_all = q fuel rest [] (omega (arith, length-append size items)) in
      rw (c, append_assoc size items rest, u, gathered_all)
        (ap (λ d. got d rest) (gathered-reversed whole [] (t ∙ c)))
  counted (n, q) e tag t (inr c) (suc fuel) rest k =
      let (u, four) = read_u32 (count_items whole) size (items ++ rest) e in
      let gathered_all = q fuel rest [] (omega (arith, length-append size items)) in
      rw (c, append_assoc size items rest, u, gathered_all)
        (ap (λ d. got d rest) (gathered-list_reverse tail head [] (t ∙ c)))
