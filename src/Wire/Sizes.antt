-- ===== src/Wire/Sizes.antt =====
-- The length that is computed in advance is the number of the bytes that are written.
use schemesh.Base.{
  ℕ, suc, ◌+◌, ◌≡◌, refl, ap, sym, true, false, Option, none, some, List, [], ◌∷◌, ◌++◌, leb, ◌&&◌,
  if◌then◌else◌, length, arith, Bool-cases, inl, inr, length-append,
}
use mathlib.Core.Path.{subst}
use schemesh.Base.Int.{ℤ, pos, negsuc, neg, leb_ℤ}
use schemesh.Wire.{
  Atom, Datum, integer, char, boolean, null, void, eof_object, bwp_object, string, bytevector,
  procedure, atom, box, pair, ◌>>=◌, put_atom, put_exact_sint, put_char, put_string, put_bytevector,
  bytes_per_char, chars_bytes, char_len,
}
use schemesh.Wire.Data.{
  is_null, count_items, put_u32_fixnum, put_any, put_items, len_exact_sint, len_atom, len_any,
  len_items,
}
use schemesh.Wire.Atoms.{some-injective, length-le_bytes}
use schemesh.Wire.Chars.{written, length-chars_bytes}
use schemesh.Wire.Lists.{bind-some}
use schemesh.Wire.Lengths.{header, length-header, vlen_size-header}

-- A size and the bytes.
abbrev Sized : Option ℕ → List ℕ → Type 0
Sized o bytes = o ≡ some (length bytes)

sized : {xs bytes : List ℕ} (o : Option ℕ) → some xs ≡ some bytes → Sized o xs → Sized o bytes
sized o h r = subst (Sized o) (some-injective h) r

len_small : (i : ℤ) → (leb_ℤ (neg 5) i && leb_ℤ i (pos 10)) ≡ true → len_exact_sint i ≡ some 1
unfolding len_exact_sint
len_small i h = rw (len_exact_sint, h) refl

low_part :
    (i : ℤ)
    → leb_ℤ (pos 0) i && leb_ℤ i (pos 10) ≡ true
    → (leb_ℤ (neg 5) i && leb_ℤ i (pos 10)) ≡ true
low_part (pos n) h = ground arith
low_part (negsuc n) h = absurd (ground arith)

negative_part :
    (i : ℤ)
    → leb_ℤ (neg 5) i && leb_ℤ i (neg 1) ≡ true
    → (leb_ℤ (neg 5) i && leb_ℤ i (pos 10)) ≡ true
negative_part (pos n) h = absurd (ground arith)
negative_part (negsuc n) h = ground arith

neither :
    (i : ℤ)
    → leb_ℤ (pos 0) i && leb_ℤ i (pos 10) ≡ false
    → leb_ℤ (neg 5) i && leb_ℤ i (neg 1) ≡ false
    → (leb_ℤ (neg 5) i && leb_ℤ i (pos 10)) ≡ false
neither (pos n) h k = ground arith
neither (negsuc n) h k = ground arith

put_exact_sint-Sized :
    (i : ℤ) (bytes : List ℕ) → put_exact_sint i ≡ some bytes → Sized (len_exact_sint i) bytes
unfolding put_exact_sint len_exact_sint
put_exact_sint-Sized i bytes e = elim (Bool-cases (leb_ℤ (pos 0) i && leb_ℤ i (pos 10))) [
  | inl a ↦ sized (len_exact_sint i) (rw (put_exact_sint, a) at e) (len_small i (low_part i a))
  | inr a ↦ elim (Bool-cases (leb_ℤ (neg 5) i && leb_ℤ i (neg 1))) [
    | inl b ↦
        sized (len_exact_sint i) (rw (put_exact_sint, a, b) at e) (len_small i (negative_part i b))
    | inr b ↦
        let z = neither i a b in
        elim (Bool-cases (leb_ℤ (neg 0x80) i && leb_ℤ i (pos 0x7f))) [
          | inl c ↦
              sized (len_exact_sint i) (rw (put_exact_sint, a, b, c) at e)
                (rw (len_exact_sint, z, c) refl)
          | inr c ↦ elim (Bool-cases (leb_ℤ (neg 0x8000) i && leb_ℤ i (pos 0x7fff))) [
            | inl d ↦
                sized (len_exact_sint i) (rw (put_exact_sint, a, b, c, d) at e)
                  (rw (len_exact_sint, z, c, d) refl)
            | inr d ↦ elim (Bool-cases (leb_ℤ (neg 0x800000) i && leb_ℤ i (pos 0x7fffff))) [
              | inl f ↦
                  sized (len_exact_sint i) (rw (put_exact_sint, a, b, c, d, f) at e)
                    (rw (len_exact_sint, z, c, d, f) refl)
              | inr f ↦ elim (Bool-cases (leb_ℤ (neg 0x80000000) i && leb_ℤ i (pos 0x7fffffff))) [
                | inl g ↦
                    sized (len_exact_sint i) (rw (put_exact_sint, a, b, c, d, f, g) at e)
                      (rw (len_exact_sint, z, c, d, f, g) refl)
                | inr g ↦
                    let no : none ≡ some bytes = (rw (put_exact_sint, a, b, c, d, f, g) at e) in
                    absurd (cc)
              ]
            ]
          ]
        ]
  ]
]

put_string-Sized :
    (cs bytes : List ℕ) → put_string cs ≡ some bytes → Sized (len_atom (string cs)) bytes
unfolding put_string len_atom
put_string-Sized cs bytes e =
    let n = bytes_per_char cs in
    let (small, same) = written (length cs) (λ t. (40 + n) ∷ (t ++ chars_bytes n cs)) bytes e in
    let size = length-chars_bytes n cs in
    let head = length-header (length cs) in
    let joined = length-append (header (length cs)) (chars_bytes n cs) in
    rw (vlen_size-header (length cs) small, same) (ap some (omega (arith, size, head, joined)))

put_bytevector-Sized :
    (bv bytes : List ℕ) → put_bytevector bv ≡ some bytes → Sized (len_atom (bytevector bv)) bytes
unfolding put_bytevector len_atom
put_bytevector-Sized bv bytes e =
    let (small, same) = written (length bv) (λ t. 40 ∷ (t ++ bv)) bytes e in
    let head = length-header (length bv) in
    let joined = length-append (header (length bv)) bv in
    rw (vlen_size-header (length bv) small, same) (ap some (omega (arith, head, joined)))

put_atom-Sized : (a : Atom) (bytes : List ℕ) → put_atom a ≡ some bytes → Sized (len_atom a) bytes
unfolding put_atom len_atom put_char
put_atom-Sized (integer i) bytes e = put_exact_sint-Sized i bytes e
put_atom-Sized (char c) bytes e =
    sized (len_atom (char c)) e (ap some (omega (arith, length-le_bytes (char_len c) c)))
put_atom-Sized (boolean true) bytes e = sized (len_atom (boolean true)) e refl
put_atom-Sized (boolean false) bytes e = sized (len_atom (boolean false)) e refl
put_atom-Sized null bytes e = sized (len_atom null) e refl
put_atom-Sized void bytes e = sized (len_atom void) e refl
put_atom-Sized eof_object bytes e = sized (len_atom eof_object) e refl
put_atom-Sized bwp_object bytes e = sized (len_atom bwp_object) e refl
put_atom-Sized (string cs) bytes e = put_string-Sized cs bytes e
put_atom-Sized (bytevector bv) bytes e = put_bytevector-Sized bv bytes e
put_atom-Sized procedure bytes e = absurd (cc)

u32-size : (n : ℕ) (size : List ℕ) → put_u32_fixnum n ≡ some size → length size ≡ 4
u32-size n size e = elim (Bool-cases (leb n 0xffffffff)) [
  | inl b ↦ ap length (sym (some-injective (rw b at e)))
  | inr b ↦ let no : none ≡ some size = (rw b at e) in absurd (cc)
]

end_atom-Sized :
    (n : ℕ) (tail : Atom) (first bytes : List ℕ)
    → n ≡ length first
    → (if is_null tail
        then some (36 ∷ first)
        else (put_atom tail >>= λ second. some (35 ∷ (first ++ second))))
      ≡ some bytes
    → Sized
        (if is_null tail then some (1 + n) else (len_atom tail >>= λ k. some (1 + (n + k))))
        bytes
end_atom-Sized n tail first bytes s g = elim (Bool-cases (is_null tail)) [
  | inl b ↦
      let same : 36 ∷ first ≡ bytes = some-injective (rw b at g) in
      rw (b, ← same) (ap some (omega (arith, s)))
  | inr b ↦
      let (second, f', g') = bind-some (put_atom tail) _ bytes (rw b at g) in
      rw (b, put_atom-Sized tail second f', ← some-injective g')
        (ap some (omega (arith, s, length-append first second)))
]

end_item-Sized :
    (a : Atom) (bytes : List ℕ)
    → (if is_null a then some [] else put_atom a) ≡ some bytes
    → Sized (if is_null a then some 0 else len_atom a) bytes
end_item-Sized a bytes e = elim (Bool-cases (is_null a)) [
  | inl b ↦ rw b (ap (λ t. some (length t)) (some-injective (rw b at e)))
  | inr b ↦ rw b (put_atom-Sized a bytes (rw b at e))
]

mutual
  unfolding put_any len_any

  pub put_any-Sized :
      (d : Datum) (bytes : List ℕ) → put_any d ≡ some bytes → len_any d ≡ some (length bytes)
  put_any-Sized (atom a) bytes e = put_atom-Sized a bytes e
  put_any-Sized (box d) bytes e =
      let (inner, f, g) = bind-some (put_any d) _ bytes e in
      rw (put_any-Sized d inner f, ← some-injective g) (ap some (omega arith))
  put_any-Sized (pair head (atom tail)) bytes e =
      let (first, f, g) = bind-some (put_any head) _ bytes e in
      rw (put_any-Sized head first f) (end_atom-Sized (length first) tail first bytes refl g)
  put_any-Sized (pair head (box tail)) bytes e =
      let (first, f, g) = bind-some (put_any head) _ bytes e in
      let (second, f', g') = bind-some (put_any tail) _ bytes g in
      rw (put_any-Sized head first f, put_any-Sized tail second f', ← some-injective g')
        (ap some (omega (arith, length-append first (34 ∷ second))))
  put_any-Sized (pair head (pair next tail)) bytes e =
      let (first, f, g) = bind-some (put_any head) _ bytes e in
      let (items, f', g') = bind-some (put_items (pair next tail)) _ bytes g in
      let (size, f'', g'') =
        bind-some (put_u32_fixnum (suc (count_items (pair next tail)))) _ bytes g' in
      let four = u32-size (suc (count_items (pair next tail))) size f'' in
      rw
        (
          put_any-Sized head first f,
          put_items-Sized (pair next tail) items f',
          ← some-injective g'',
        )
        (ap some
          (omega (arith, four, length-append size (first ++ items), length-append first items)))

  put_items-Sized :
      (d : Datum) (bytes : List ℕ) → put_items d ≡ some bytes → len_items d ≡ some (length bytes)
  put_items-Sized (atom a) bytes e = end_item-Sized a bytes e
  put_items-Sized (box d) bytes e =
      let (inner, f, g) = bind-some (put_any d) _ bytes e in
      rw (put_any-Sized d inner f, ← some-injective g) (ap some (omega arith))
  put_items-Sized (pair head tail) bytes e =
      let (first, f, g) = bind-some (put_any head) _ bytes e in
      let (items, f', g') = bind-some (put_items tail) _ bytes g in
      rw (put_any-Sized head first f, put_items-Sized tail items f', ← some-injective g')
        (ap some (omega (arith, length-append first items)))
