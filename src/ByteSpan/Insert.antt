-- ===== src/ByteSpan/Insert.antt =====
-- What is inserted in a span stands in front of its bytes, or behind them.
use schemesh.Base.{
  ℕ, ◌+◌, ◌-◌, ◌≡◌, refl, ◌∙◌, sym, ap, true, false, Option, none, some, ◌&&◌, Bool, List, [], ◌∷◌,
  ◌++◌, arith, length, set, leb, ltb, inl, inr, length-append, Bool-cases,
}
use mathlib.Core.Path.{subst}
use mathlib.Core.List.{append-nil, append_assoc}
use schemesh.ByteSpan.{
  ByteSpan, asserted, ◌>>=◌, bytespan_set, bytespan_copy, bytevector_copy, set_all, insert_left_u8,
  insert_right_u8, insert_left_bytespan, insert_right_bytespan, span_length,
}
use schemesh.ByteSpan.Spec.{all_bytes}
use schemesh.ByteSpan.Lists.{slice-middle, drop-middle, take-length_append, set-middle}
use schemesh.ByteSpan.Holds.{Holds, Gives, span-eq, Holds-length}
use schemesh.ByteSpan.Reserve.{resize_left-Grown, resize_right-Grown}

regrouped : (f a m back : List ℕ) → f ++ ((a ++ m) ++ back) ≡ (f ++ a) ++ (m ++ back)
regrouped f a m back = ap (λ t. f ++ t) (append_assoc a m back) ∙ sym (append_assoc f a (m ++ back))

pub bytespan_set-Gives :
    (sp : ByteSpan) (a b : List ℕ) (x u : ℕ)
    → leb u 255 ≡ true
    → Holds sp (a ++ (x ∷ b))
    → Gives (bytespan_set sp (length a) u) (a ++ (u ∷ b))
unfolding bytespan_set
bytespan_set-Gives sp a b x u byte (f, back, e) =
    let whole = length-append a (x ∷ b) in
    let c : ltb (length a) (length f + length (a ++ (x ∷ b)) - length f) ≡ true =
      ground (arith, whole) in
    let at_front : length a + length f ≡ length (f ++ a) = omega (arith, length-append f a) in
    rw (e, c, byte)
      (
        _,
        refl,
        (
          f,
          back,
          span-eq refl (omega (arith, whole, length-append a (u ∷ b))) (
              ap (λ t. set t (length a + length f) u) (regrouped f a (x ∷ b) back)
              ∙ ap (λ n. set ((f ++ a) ++ (x ∷ (b ++ back))) n u) at_front
              ∙ set-middle (f ++ a) (b ++ back) x u
              ∙ sym (regrouped f a (u ∷ b) back)),
        ),
      )

bind_none :
    (r : Option ByteSpan) (f : ByteSpan → Option ByteSpan)
    → ((q : ByteSpan) → f q ≡ none)
    → (r >>= f) ≡ none
bind_none none f h = refl
bind_none (some q) f h = h q

asserted-none :
    (c d : Bool) (r : Option ByteSpan) → (c && d) ≡ false → asserted c (asserted d r) ≡ none
asserted-none false d r h = refl
asserted-none true false r h = refl
asserted-none true true r h = absurd (ground arith)

pub bytespan_set-fails :
    (sp : ByteSpan) (idx u : ℕ)
    → (ltb idx (span_length sp) && leb u 255) ≡ false
    → bytespan_set sp idx u ≡ none
unfolding bytespan_set
bytespan_set-fails sp idx u h = asserted-none (ltb idx (span_length sp)) (leb u 255) _ h

pub length-zero : (us : List ℕ) → length us ≡ 0 → us ≡ []
length-zero [] h = refl
length-zero (u ∷ us) h = absurd (omega arith)

pub at_front : (f a : List ℕ) → length a + length f ≡ length (f ++ a)
at_front f a = omega (arith, length-append f a)

pub regrouped_three :
    (f a m b back : List ℕ) → f ++ ((a ++ (m ++ b)) ++ back) ≡ (f ++ a) ++ (m ++ (b ++ back))
regrouped_three f a m b back =
    regrouped f a (m ++ b) back ∙ ap (λ t. (f ++ a) ++ t) (append_assoc m b back)

copied :
    (f a junk b back fs before us after bs : List ℕ)
    → length junk ≡ length us
    → bytevector_copy
        (fs ++ ((before ++ (us ++ after)) ++ bs))
        (length before + length fs)
        (f ++ ((a ++ (junk ++ b)) ++ back))
        (length a + length f)
        (length us)
      ≡ f ++ ((a ++ (us ++ b)) ++ back)
copied f a junk b back fs before us after bs j =
    let behind : length a + length f + length us ≡ length (f ++ a) + length junk =
      omega (arith, at_front f a) in
    rw
      (
        regrouped_three f a junk b back,
        regrouped_three fs before us after bs,
        at_front fs before,
        slice-middle (fs ++ before) us (after ++ bs),
        behind,
        drop-middle (f ++ a) junk (b ++ back),
        at_front f a,
        take-length_append (f ++ a) (junk ++ (b ++ back)),
      )
      (sym (regrouped_three f a us b back))

-- The bytes of a range of src replace those of a range of dst.
bytespan_copy-Gives :
    (src dst : ByteSpan) (before us after a junk b : List ℕ)
    → Holds src (before ++ (us ++ after))
    → Holds dst (a ++ (junk ++ b))
    → length junk ≡ length us
    → Gives (bytespan_copy src (length before) dst (length a) (length us)) (a ++ (us ++ b))
unfolding bytespan_copy
bytespan_copy-Gives src dst before us after a junk b (fs, bs, es) (f, back, e) j =
    let whole = length-append a (junk ++ b) in
    let part = length-append junk b in
    let source = length-append before (us ++ after) in
    let source_part = length-append us after in
    let c : leb (length before + length us)
          (length fs + length (before ++ (us ++ after)) - length fs)
        ≡ true =
      ground (arith, source, source_part) in
    let d : leb (length a + length us) (length f + length (a ++ (junk ++ b)) - length f) ≡ true =
      ground (arith, whole, part) in
    rw (es, e, c, d)
      (
        _,
        refl,
        (
          f,
          back,
          span-eq refl (omega (arith, whole, part, length-append a (us ++ b), length-append us b))
              (copied f a junk b back fs before us after bs j),
        ),
      )

module _ (fresh : ℕ → List ℕ) (sized : (n : ℕ) → length (fresh n) ≡ n) where
  set_all-fails :
      (us : List ℕ) (sp : ByteSpan) (pos : ℕ)
      → all_bytes us ≡ false
      → set_all fresh sp pos us ≡ none
  unfolding set_all
  set_all-fails [] sp pos h = absurd (ground arith)
  set_all-fails (u ∷ us) sp pos h = elim (Bool-cases (leb u 255)) [
    | inl b ↦ bind_none _ _ (λ q. set_all-fails us q (pos + 1) (rw b at h))
    | inr b ↦ rw (bytespan_set-fails sp pos u (ground arith)) refl
  ]

  set_all-Gives :
      (sp : ByteSpan) (a junk us b : List ℕ)
      → all_bytes us ≡ true
      → Holds sp (a ++ (junk ++ b))
      → length junk ≡ length us
      → Gives (set_all fresh sp (length a) us) (a ++ (us ++ b))
  unfolding set_all
  set_all-Gives sp a [] [] b y h j = (sp, refl, h)
  set_all-Gives sp a [] (u ∷ us) b y h j = absurd (omega arith)
  set_all-Gives sp a (x ∷ junk) [] b y h j = absurd (omega arith)
  set_all-Gives sp a (x ∷ junk) (u ∷ us) b y h j =
      let (q, r, stored) = bytespan_set-Gives sp a (junk ++ b) x u (ground arith) h in
      let one = append_assoc a (u ∷ []) in
      let (q', r', all) =
        set_all-Gives q (a ++ (u ∷ [])) junk us b (ground arith)
          (subst (Holds q) (sym (one (junk ++ b))) stored) (omega arith) in
      let next : length (a ++ (u ∷ [])) ≡ length a + 1 = omega (arith, length-append a (u ∷ [])) in
      rw r
        (q', ap (λ n. set_all fresh q n us) (sym next) ∙ r', subst (Holds q') (one (us ++ b)) all)

  pub insert_u8-fails :
      (sp : ByteSpan) (us : List ℕ)
      → all_bytes us ≡ false
      → (insert_left_u8 fresh sp us ≡ none) × (insert_right_u8 fresh sp us ≡ none)
  unfolding insert_left_u8 insert_right_u8
  insert_u8-fails sp [] h = absurd (ground arith)
  insert_u8-fails sp (u ∷ us) h = (
    bind_none _ _ (λ q. set_all-fails (u ∷ us) q 0 h),
    bind_none _ _ (λ q. set_all-fails (u ∷ us) q (span_length sp) h),
  )

  pub insert_left_u8-Gives :
      (sp : ByteSpan) (xs us : List ℕ)
      → all_bytes us ≡ true
      → Holds sp xs
      → Gives (insert_left_u8 fresh sp us) (us ++ xs)
  unfolding insert_left_u8
  insert_left_u8-Gives sp xs [] y h = (sp, refl, h)
  insert_left_u8-Gives sp xs (u ∷ us) y h =
      let (junk, q, r, grown, size) = resize_left-Grown fresh sized sp xs (length (u ∷ us)) h in
      rw (Holds-length sp xs h, r) (set_all-Gives q [] junk (u ∷ us) xs y grown size)

  pub insert_right_u8-Gives :
      (sp : ByteSpan) (xs us : List ℕ)
      → all_bytes us ≡ true
      → Holds sp xs
      → Gives (insert_right_u8 fresh sp us) (xs ++ us)
  unfolding insert_right_u8
  insert_right_u8-Gives sp xs [] y h = (sp, refl, rw (append-nil xs) h)
  insert_right_u8-Gives sp xs (u ∷ us) y h =
      let (junk, q, r, grown, size) = resize_right-Grown fresh sized sp xs (length (u ∷ us)) h in
      let (q', r', all) =
        set_all-Gives q xs junk (u ∷ us) [] y
          (subst (λ t. Holds q (xs ++ t)) (sym (append-nil junk)) grown) size in
      rw (Holds-length sp xs h, r)
        (q', r', subst (λ t. Holds q' (xs ++ t)) (append-nil (u ∷ us)) all)

  -- A range of a span src, whose bytes are us.
  module _ (src : ByteSpan) (before us after : List ℕ)
      (held : Holds src (before ++ (us ++ after))) where
    source_length : span_length src ≡ length before + (length us + length after)
    source_length =
        Holds-length src (before ++ (us ++ after)) held
        ∙ length-append before (us ++ after)
        ∙ ap (λ n. length before + n) (length-append us after)

    in_range :
        leb (length before) (length before + length us)
          && leb (length before + length us) (span_length src)
        ≡ true
    in_range = ground (arith, source_length)

    pub insert_left_bytespan-Gives :
        (sp : ByteSpan) (xs : List ℕ)
        → Holds sp xs
        → Gives
            (insert_left_bytespan fresh sp src (length before) (length before + length us))
            (us ++ xs)
    unfolding insert_left_bytespan
    insert_left_bytespan-Gives sp xs h =
        let n : length before + length us - length before ≡ length us = omega arith in
        elim (Bool-cases (ltb (length before) (length before + length us))) [
          | inl b ↦
              let (junk, q, r, grown, size) = resize_left-Grown fresh sized sp xs (length us) h in
              rw (in_range, b, Holds-length sp xs h, n, r)
                (bytespan_copy-Gives src q before us after [] junk xs held grown size)
          | inr b ↦
              let empty : length us ≡ 0 = ground arith in
              rw (in_range, b)
                (sp, refl, subst (λ t. Holds sp (t ++ xs)) (sym (length-zero us empty)) h)
        ]

    pub insert_right_bytespan-Gives :
        (sp : ByteSpan) (xs : List ℕ)
        → Holds sp xs
        → Gives
            (insert_right_bytespan fresh sp src (length before) (length before + length us))
            (xs ++ us)
    unfolding insert_right_bytespan
    insert_right_bytespan-Gives sp xs h =
        let n : length before + length us - length before ≡ length us = omega arith in
        elim (Bool-cases (ltb (length before) (length before + length us))) [
          | inl b ↦
              let (junk, q, r, grown, size) = resize_right-Grown fresh sized sp xs (length us) h in
              let at_end = subst (λ t. Holds q (xs ++ t)) (sym (append-nil junk)) grown in
              let (q', r', all) =
                bytespan_copy-Gives src q before us after xs junk [] held at_end size in
              rw (in_range, b, Holds-length sp xs h, n, r)
                (q', r', subst (λ t. Holds q' (xs ++ t)) (append-nil us) all)
          | inr b ↦
              let empty : length us ≡ 0 = ground arith in
              let none_left : xs ≡ xs ++ us = rw (length-zero us empty) (sym (append-nil xs)) in
              rw (in_range, b) (sp, refl, subst (Holds sp) none_left h)
        ]
