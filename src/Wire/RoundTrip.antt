-- ===== src/Wire/RoundTrip.antt =====
-- A datum is read as it was written.
use schemesh.Base.{
  ℕ, suc, ◌≡◌, refl, ap, sym, true, some, List, [], ◌∷◌, ◌++◌, if◌then◌else◌, arith, Bool-cases,
  inl, inr,
}
use mathlib.Core.Path.{subst}
use schemesh.Wire.{Atom, Datum, atom, box, pair, got, ◌>>=◌, put_atom}
use schemesh.Wire.Data.{
  is_null, count_items, list_tag, put_u32_fixnum, put_any, put_items, get_list_impl,
}
use schemesh.Wire.Atoms.{some-injective}
use schemesh.Wire.Lists.{is_null-eq, list_tag-cases, bind-some}
use schemesh.Wire.Items.{
  plain_atom, plain, ReadsIn, put_atom-ReadsIn, ItemsIn, last_item, next_item, boxed, paired, alone,
  counted,
}

end_atom :
    (head : Datum) (tail : Atom) (first bytes : List ℕ)
    → ReadsIn first head
    → plain_atom tail ≡ true
    → (if is_null tail
        then some (36 ∷ first)
        else (put_atom tail >>= λ second. some (35 ∷ (first ++ second))))
      ≡ some bytes
    → ReadsIn bytes (pair head (atom tail))
end_atom head tail first bytes r h g = elim (Bool-cases (is_null tail)) [
  | inl b ↦
      let same : 36 ∷ first ≡ bytes = some-injective (rw b at g) in
      subst (λ t. ReadsIn t (pair head (atom tail))) same
        (subst (λ a. ReadsIn (36 ∷ first) (pair head (atom a))) (sym (is_null-eq tail b))
          (alone first head r))
  | inr b ↦
      let (second, f', g') = bind-some (put_atom tail) _ bytes (rw b at g) in
      subst (λ t. ReadsIn t (pair head (atom tail))) (some-injective g')
        (paired first second head (atom tail) r (put_atom-ReadsIn tail second h f'))
]

end_item :
    (a : Atom) (bytes : List ℕ)
    → plain_atom a ≡ true
    → (if is_null a then some [] else put_atom a) ≡ some bytes
    → ItemsIn bytes (atom a)
unfolding get_list_impl
end_item a bytes h e = elim (Bool-cases (is_null a)) [
  | inl b ↦
      let none_left : [] ≡ bytes = some-injective (rw b at e) in
      rw b (omega arith, λ fuel rest ret k. ap (λ t. got ret (t ++ rest)) (sym none_left))
  | inr b ↦ rw b (last_item bytes (atom a) (put_atom-ReadsIn a bytes h (rw b at e)))
]

mutual
  unfolding put_any

  pub put_any-ReadsIn :
      (d : Datum) (bytes : List ℕ) → plain d ≡ true → put_any d ≡ some bytes → ReadsIn bytes d
  put_any-ReadsIn (atom a) bytes h e = put_atom-ReadsIn a bytes h e
  put_any-ReadsIn (box d) bytes h e =
      let (inner, f, g) = bind-some (put_any d) _ bytes e in
      subst (λ t. ReadsIn t (box d)) (some-injective g)
        (boxed inner d (put_any-ReadsIn d inner h f))
  put_any-ReadsIn (pair head (atom tail)) bytes h e =
      let (first, f, g) = bind-some (put_any head) _ bytes e in
      end_atom head tail first bytes (put_any-ReadsIn head first (ground arith) f) (ground arith) g
  put_any-ReadsIn (pair head (box tail)) bytes h e =
      let (first, f, g) = bind-some (put_any head) _ bytes e in
      let (second, f', g') = bind-some (put_any tail) _ bytes g in
      subst (λ t. ReadsIn t (pair head (box tail))) (some-injective g')
        (paired first (34 ∷ second) head (box tail) (put_any-ReadsIn head first (ground arith) f)
          (boxed second tail (put_any-ReadsIn tail second (ground arith) f')))
  put_any-ReadsIn (pair head (pair next tail)) bytes h e =
      let (first, f, g) = bind-some (put_any head) _ bytes e in
      let (items, f', g') = bind-some (put_items (pair next tail)) _ bytes g in
      let (size, f'', g'') =
        bind-some (put_u32_fixnum (suc (count_items (pair next tail)))) _ bytes g' in
      subst (λ t. ReadsIn t (pair head (pair next tail))) (some-injective g'')
        (counted head (pair next tail) (first ++ items) size
          (next_item first items head (pair next tail) (put_any-ReadsIn head first (ground arith) f)
            (put_items-ItemsIn (pair next tail) items (ground arith) f'))
          f'' (list_tag (pair next tail)) refl (list_tag-cases (pair next tail)))

  put_items-ItemsIn :
      (d : Datum) (bytes : List ℕ) → plain d ≡ true → put_items d ≡ some bytes → ItemsIn bytes d
  put_items-ItemsIn (atom a) bytes h e = end_item a bytes h e
  put_items-ItemsIn (box d) bytes h e =
      let (inner, f, g) = bind-some (put_any d) _ bytes e in
      last_item bytes (box d) (
        subst (λ t. ReadsIn t (box d)) (some-injective g)
          (boxed inner d (put_any-ReadsIn d inner h f)))
  put_items-ItemsIn (pair head tail) bytes h e =
      let (first, f, g) = bind-some (put_any head) _ bytes e in
      let (items, f', g') = bind-some (put_items tail) _ bytes g in
      subst (λ t. ItemsIn t (pair head tail)) (some-injective g')
        (next_item first items head tail (put_any-ReadsIn head first (ground arith) f)
          (put_items-ItemsIn tail items (ground arith) f'))
