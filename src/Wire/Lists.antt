-- ===== src/Wire/Lists.antt =====
-- What the readers of lists gather, and the list made of it.
use schemesh.Base.{
  ◌≡◌, refl, true, Option, none, some, List, ◌∷◌, if◌then◌else◌, arith, Bool-cases, inl, inr, ◌⊎◌,
}
use schemesh.Wire.{
  Atom, Datum, integer, char, boolean, null, void, eof_object, bwp_object, string, bytevector,
  procedure, atom, box, pair, ◌>>=◌,
}
use schemesh.Wire.Data.{is_null, list_tag, reversed, list_reverse}

pub is_null-eq : (a : Atom) → is_null a ≡ true → a ≡ null
is_null-eq null h = refl
is_null-eq (integer i) h = absurd (cc)
is_null-eq (char c) h = absurd (cc)
is_null-eq (boolean b) h = absurd (cc)
is_null-eq void h = absurd (cc)
is_null-eq eof_object h = absurd (cc)
is_null-eq bwp_object h = absurd (cc)
is_null-eq (string cs) h = absurd (cc)
is_null-eq (bytevector bv) h = absurd (cc)
is_null-eq procedure h = absurd (cc)

-- The items of a list, the last one first, in front of those before.
abbrev pub gathered : Datum → List Datum → List Datum
gathered (atom a) ret = if is_null a then ret else atom a ∷ ret
gathered (box d) ret = box d ∷ ret
gathered (pair head tail) ret = gathered tail (head ∷ ret)

pub gathered-reversed :
    (d : Datum) (ret : List Datum)
    → list_tag d ≡ 38
    → reversed (gathered d ret) (atom null) ≡ reversed ret d
gathered-reversed (atom a) ret h = elim (Bool-cases (is_null a)) [
  | inl b ↦ rw (b, is_null-eq a b) refl
  | inr b ↦ absurd (ground arith)
]
gathered-reversed (box d) ret h = absurd (omega arith)
gathered-reversed (pair head tail) ret h = gathered-reversed tail (head ∷ ret) h

pub gathered-list_reverse :
    (d x : Datum) (ret : List Datum)
    → list_tag d ≡ 37
    → list_reverse (gathered d (x ∷ ret)) ≡ reversed (x ∷ ret) d
gathered-list_reverse (atom a) x ret h = elim (Bool-cases (is_null a)) [
  | inl b ↦ absurd (ground arith)
  | inr b ↦ rw b refl
]
gathered-list_reverse (box d) x ret h = refl
gathered-list_reverse (pair head tail) x ret h = gathered-list_reverse tail head (x ∷ ret) h

pub list_tag-cases : (d : Datum) → (list_tag d ≡ 38) ⊎ (list_tag d ≡ 37)
list_tag-cases (atom a) = elim (Bool-cases (is_null a)) [
  | inl b ↦ rw b (inl refl)
  | inr b ↦ rw b (inr refl)
]
list_tag-cases (box d) = inr refl
list_tag-cases (pair head tail) = list_tag-cases tail

pub bind-some :
    {A B : Type 0} (o : Option A) (f : A → Option B) (y : B)
    → (o >>= f) ≡ some y
    → (x : A) × (o ≡ some x) × (f x ≡ some y)
bind-some none f y h = absurd (cc)
bind-some (some x) f y h = (x, refl, h)
