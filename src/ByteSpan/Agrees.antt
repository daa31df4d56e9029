-- ===== src/ByteSpan/Agrees.antt =====
-- A span and a sequence after one operation each.
use schemesh.Base.{
  ℕ, ◌+◌, ◌-◌, ◌≤◌, ◌≡◌, refl, ◌∙◌, sym, ap, true, false, Option, none, some, List, [], ◌∷◌, ◌++◌,
  arith, length, take, drop, replicate, set, leb, length-append, length-take, length-drop,
  take-append-drop, ◌<◌,
}
use mathlib.Core.Path.{subst}
use schemesh.ByteSpan.{ByteSpan, bytevector_to_bytespan, bytespan_set, insert_right_bytespan, ◌>>=◌}
use schemesh.ByteSpan.Spec.{range, is_range, contents}
use schemesh.ByteSpan.Fill.{bytespan_fill-Gives}
use schemesh.ByteSpan.Whole.{bytespan_fill, is_byte, byte_of}
use schemesh.ByteSpan.Lists.{set-middle, drop-add}
use schemesh.Base.Int.{ℤ}
use schemesh.ByteSpan.Holds.{Holds, Gives, Holds-contents}
use schemesh.ByteSpan.Insert.{bytespan_set-Gives}

-- Both fail, or the span holds the sequence.
abbrev pub Agrees : Option ByteSpan → Option (List ℕ) → Type 0
Agrees none none = Unit {0}
Agrees (some q) (some ys) = Holds q ys
Agrees _ _ = ⊥

pub Gives-Agrees : (r : Option ByteSpan) (ys : List ℕ) → Gives r ys → Agrees r (some ys)
Gives-Agrees r ys (q, e, h) = rw e h

pub in_parts :
    (ys : List ℕ) (start end : ℕ)
    → is_range ys start end ≡ true
    → (ys ≡ take start ys ++ (range ys start end ++ drop (end - start) (drop start ys)))
      × (length (take start ys) ≡ start)
      × (length (take start ys) + length (range ys start end) ≡ end)
in_parts ys start end h =
    let ordered : start ≤ end = ground arith in
    let within : end ≤ length ys = ground arith in
    let front = length-take start ys in
    let middle = length-take (end - start) (drop start ys) in
    (
      sym (take-append-drop start ys)
          ∙ ap (λ t. take start ys ++ t) (sym (take-append-drop (end - start) (drop start ys))),
      omega (arith, front),
      omega (arith, front, middle, length-drop start ys),
    )

pub put_parts :
    (sp : ByteSpan) (xs : List ℕ) (i u8 : ℕ) (front back : List ℕ)
    → Holds sp xs
    → xs ≡ front ++ back
    → length front ≡ i
    → i < length xs
    → leb u8 255 ≡ true
    → Gives (bytespan_set sp i u8) (set xs i u8)
put_parts sp xs i u8 front [] h e size k y =
    absurd (omega (arith, ap length e, length-append front []))
put_parts sp xs i u8 front (x ∷ b) h e size k y =
    let changed = bytespan_set-Gives sp front b x u8 y (subst (Holds sp) e h) in
    let same : front ++ (u8 ∷ b) ≡ set xs i u8 = rw (e, ← size) (sym (set-middle front b x u8)) in
    subst (λ n. Gives (bytespan_set sp n u8) (set xs i u8)) size
      (subst (Gives (bytespan_set sp (length front) u8)) same changed)

pub fill_parts :
    (sp : ByteSpan) (xs : List ℕ) (start end : ℕ) (val : ℤ)
    → Holds sp xs
    → is_range xs start end ≡ true
    → is_byte val ≡ true
    → Gives
        (bytespan_fill sp start end val)
        (take start xs ++ (replicate (end - start) (byte_of val) ++ drop end xs))
fill_parts sp xs start end val h inside k =
    let (parts, s, e) = in_parts xs start end inside in
    let rest = drop (end - start) (drop start xs) in
    let filled =
      bytespan_fill-Gives sp (take start xs) (range xs start end) rest val
        (subst (Holds sp) parts h) k in
    let n : length (range xs start end) ≡ end - start = omega arith in
    let behind : start + (end - start) ≡ end = ground arith in
    let last : rest ≡ drop end xs =
      sym (drop-add start (end - start) xs) ∙ ap (λ m. drop m xs) behind in
    let F : ℕ → ℕ → Type 0 = λ a b.
      Gives (bytespan_fill sp a b val)
        (take start xs ++ (replicate (end - start) (byte_of val) ++ drop end xs)) in
    subst (F start) e (
      subst (λ a. F a (length (take start xs) + length (range xs start end))) s
        (subst
          (λ t.
            Gives
              (bytespan_fill sp (length (take start xs))
                (length (take start xs) + length (range xs start end)) val)
              (take start xs ++ t))
          (ap (λ m. replicate m (byte_of val) ++ rest) n
            ∙ ap (λ t. replicate (end - start) (byte_of val) ++ t) last)
          filled))

pub right_outside :
    (fresh : ℕ → List ℕ) (sp : ByteSpan) (ys : List ℕ) (start end : ℕ)
    → is_range ys start end ≡ false
    → insert_right_bytespan fresh sp (bytevector_to_bytespan ys) start end ≡ none
unfolding insert_right_bytespan
right_outside fresh sp ys start end h =
    let z : length ys - 0 ≡ length ys = omega arith in rw (insert_right_bytespan, z, h) refl

-- One step of a run.
pub bind-Agrees :
    (r : Option ByteSpan) (s : Option (List ℕ)) (f : ByteSpan → Option ByteSpan)
    (g : List ℕ → Option (List ℕ))
    → Agrees r s
    → ((q : ByteSpan) (ys : List ℕ) → Holds q ys → Agrees (f q) (g ys))
    → Agrees (r >>= f) (elim s as (λ x. Option (List ℕ)) [ none ↦ none | some ys ↦ g ys ])
bind-Agrees none none f g h k = tt
bind-Agrees none (some ys) f g h k = absurd h
bind-Agrees (some q) none f g h k = absurd h
bind-Agrees (some q) (some ys) f g h k = k q ys h

pub Agrees-contents : (r : Option ByteSpan) (s : Option (List ℕ)) → Agrees r s → contents r ≡ s
Agrees-contents none none h = refl
Agrees-contents none (some ys) h = absurd h
Agrees-contents (some q) none h = absurd h
Agrees-contents (some q) (some ys) h = ap some (Holds-contents q ys h)
