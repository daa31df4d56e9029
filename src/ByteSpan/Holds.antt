-- ===== src/ByteSpan/Holds.antt =====
-- A span that holds bytes: its bytevector is what stands in front, the bytes, and what stands behind.
use schemesh.Base.{
  ℕ, zero, suc, ◌+◌, ◌-◌, ◌≤◌, ◌≡◌, refl, ◌∙◌, sym, ap, true, false, Option, none, some, List, [],
  ◌∷◌, ◌++◌, arith, length, take, drop, leb, if◌then◌else◌, inl, inr, ◌<◌, get_elem?, ltb, lt-cases,
  ◌==◌,
}
use schemesh.ByteSpan.{
  ByteSpan, bytespan_to_bytevector, bytespan_ref, bytespan_clear, bytevector_to_bytespan,
  span_length, delete_left, delete_right,
}
use schemesh.ByteSpan.Lists.{slice-middle, get_elem?-middle}
use mathlib.Core.List.{append-nil, append_assoc}
use schemesh.Base.{length-append}

abbrev pub span_of : List ℕ → List ℕ → List ℕ → ByteSpan
span_of front xs back = record {
  beg = length front;
  end = length front + length xs;
  vec = front ++ (xs ++ back);
}

abbrev pub Holds : ByteSpan → List ℕ → Type 0
Holds sp xs = (front : List ℕ) × (back : List ℕ) × (sp ≡ span_of front xs back)

-- A result that is no failed assertion, and a span that holds the bytes.
abbrev pub Gives : Option ByteSpan → List ℕ → Type 0
Gives r xs = (q : ByteSpan) × (r ≡ some q) × Holds q xs

pub span-eq :
    {b c e f : ℕ} {v w : List ℕ}
    → b ≡ c
    → e ≡ f
    → v ≡ w
    → ◌≡◌ {A = ByteSpan}
        (record { beg = b; end = e; vec = v })
        (record { beg = c; end = f; vec = w })
span-eq p q r i = record { beg = p i; end = q i; vec = r i }

pub span_of-length : (front xs back : List ℕ) → span_length (span_of front xs back) ≡ length xs
span_of-length front xs back = omega arith

pub span_of-capacity :
    (front xs back : List ℕ)
    → length (front ++ (xs ++ back)) ≡ length front + (length xs + length back)
span_of-capacity front xs back =
    length-append front (xs ++ back) ∙ ap (λ n. length front + n) (length-append xs back)

pub Holds-length : (sp : ByteSpan) (xs : List ℕ) → Holds sp xs → span_length sp ≡ length xs
Holds-length sp xs (front, back, e) = rw e (span_of-length front xs back)

pub Holds-contents : (sp : ByteSpan) (xs : List ℕ) → Holds sp xs → bytespan_to_bytevector sp ≡ xs
unfolding bytespan_to_bytevector
Holds-contents sp xs (front, back, e) = rw e (contents front xs back)
  where
    contents :
        (front xs back : List ℕ)
        → (if leb (length front + length xs) (length front)
            then []
            else take
                (length front + length xs - length front)
                (drop (length front) (front ++ (xs ++ back))))
          ≡ xs
    contents front [] back =
        let b : leb (length front + 0) (length front) ≡ true = ground arith in rw b refl
    contents front (x ∷ xs) back =
        let n = suc (length xs) in
        let b : leb (length front + n) (length front) ≡ false = ground arith in
        let m : length front + n - length front ≡ n = omega arith in
        rw (b, m) (slice-middle front (x ∷ xs) back)

pub bytevector-Holds : (xs : List ℕ) → Holds (bytevector_to_bytespan xs) xs
bytevector-Holds xs = ([], [], span-eq refl (omega arith) (sym (append-nil xs)))

pub clear-Holds : (sp : ByteSpan) → Holds (bytespan_clear sp) []
unfolding bytespan_clear
clear-Holds sp = ([], sp.vec, refl)

pub delete_left-Gives :
    (sp : ByteSpan) (gone xs : List ℕ)
    → Holds sp (gone ++ xs)
    → Gives (delete_left sp (length gone)) xs
unfolding delete_left
delete_left-Gives sp [] xs (front, back, e) =
    let b : leb 0 (length front + length xs - length front) ≡ true = ground arith in
    rw (e, b) (_, refl, (front, back, refl))
delete_left-Gives sp (x ∷ gone) xs (front, back, e) =
    let all = length-append (x ∷ gone) xs in
    let b : leb (suc (length gone)) (length front + length ((x ∷ gone) ++ xs) - length front)
        ≡ true =
      ground (arith, length-append gone xs) in
    let z : (suc (length gone) == 0) ≡ false = ground arith in
    rw (e, b, z)
      (
        _,
        refl,
        (
          front ++ (x ∷ gone),
          back,
          span-eq (omega (arith, length-append front (x ∷ gone)))
              (omega (arith, length-append front (x ∷ gone), length-append gone xs))
              (ap (λ t. front ++ t) (append_assoc (x ∷ gone) xs back)
                ∙ sym (append_assoc front (x ∷ gone) (xs ++ back))),
        ),
      )

pub delete_right-Gives :
    (sp : ByteSpan) (xs gone : List ℕ)
    → Holds sp (xs ++ gone)
    → Gives (delete_right sp (length gone)) xs
unfolding delete_right
delete_right-Gives sp xs [] (front, back, e) =
    let b : leb 0 (length front + length (xs ++ []) - length front) ≡ true = ground arith in
    rw (e, b) (_, refl, (front, back, ap (λ t. span_of front t back) (append-nil xs)))
delete_right-Gives sp xs (x ∷ gone) (front, back, e) =
    let b : leb (suc (length gone)) (length front + length (xs ++ (x ∷ gone)) - length front)
        ≡ true =
      ground (arith, length-append xs (x ∷ gone)) in
    let z : (suc (length gone) == 0) ≡ false = ground arith in
    rw (e, b, z)
      (
        _,
        refl,
        (
          front,
          (x ∷ gone) ++ back,
          span-eq refl (omega (arith, length-append xs (x ∷ gone)))
              (ap (λ t. front ++ t) (append_assoc xs (x ∷ gone) back)),
        ),
      )

-- Deleting more than there is fails.
pub delete-fails :
    (sp : ByteSpan) (xs : List ℕ) (n : ℕ)
    → Holds sp xs
    → length xs < n
    → (delete_left sp n ≡ none) × (delete_right sp n ≡ none)
unfolding delete_left delete_right
delete-fails sp xs n h k =
    let b : leb n (span_length sp) ≡ false = ground (arith, Holds-length sp xs h) in
    (rw (delete_left, b) refl, rw (delete_right, b) refl)

get_elem?-beyond : (xs : List ℕ) (i : ℕ) → length xs ≤ i → get_elem? xs i ≡ none
get_elem?-beyond [] i h = refl
get_elem?-beyond (x ∷ xs) zero h = absurd (omega arith)
get_elem?-beyond (x ∷ xs) (suc i) h = get_elem?-beyond xs i (omega arith)

pub bytespan_ref-Holds :
    (sp : ByteSpan) (xs : List ℕ) (i : ℕ) → Holds sp xs → bytespan_ref sp i ≡ get_elem? xs i
unfolding bytespan_ref
bytespan_ref-Holds sp xs i (front, back, e) = elim (lt-cases i (length xs)) [
  | inl h ↦
      let b : ltb i (length front + length xs - length front) ≡ true = ground arith in
      rw (e, b) (get_elem?-middle front xs back i h)
  | inr h ↦
      let b : ltb i (length front + length xs - length front) ≡ false = ground arith in
      rw (e, b) (sym (get_elem?-beyond xs i h))
]
