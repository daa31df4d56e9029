-- ===== src/ByteSpan/Fill.antt =====
-- The bytes of a range are replaced by one byte, in Scheme or in C.
use schemesh.Base.{
  ℕ, suc, ◌+◌, ◌-◌, ◌%◌, ◌<◌, ◌≡◌, refl, ◌∙◌, sym, ap, Bool, true, false, ◌&&◌, none, some, List,
  [], ◌∷◌, ◌++◌, arith, length, set, leb, ltb, ◌==◌, if◌then◌else◌, inl, inr, length-append,
  Bool-cases, replicate, length-replicate,
}
use mathlib.Core.List.{append_assoc}
use schemesh.Base.Bits.{bit_and_low}
use schemesh.Base.Int.{ℤ, pos}
use schemesh.Scheme.{bytevector}
use schemesh.Bytevector.{subbytevector_fill, low_byte, is_range}
use schemesh.ByteSpan.{ByteSpan, asserted}
use schemesh.ByteSpan.Holds.{Holds, Gives, Holds-length, span-eq}
use schemesh.ByteSpan.Insert.{at_front, regrouped_three}
use schemesh.ByteSpan.Lists.{take-length_append, drop-length_append, set-middle}
use schemesh.ByteSpan.Whole.{bytespan_fill, fill_bytes, byte_of, is_byte, bytes_of}

byte_of-lt : (val : ℤ) → byte_of val < 256
byte_of-lt val = ground arith

byte-kept : (n : ℕ) → n < 256 → low_byte (pos n) ≡ n
byte-kept n h = let e : n % 256 ≡ n = omega arith in bit_and_low 8 n ∙ e

c_fill :
    (front junk back : List ℕ) (n : ℕ)
    → n < 256
    → 0 < length junk
    → bytes_of (
        subbytevector_fill
          (bytevector (front ++ (junk ++ back)))
          (pos (length front))
          (pos (length front + length junk))
          (pos n))
      ≡ front ++ (replicate (length junk) n ++ back)
unfolding subbytevector_fill
c_fill front junk back n h k =
    let bvec = front ++ (junk ++ back) in
    let whole = length-append front (junk ++ back) in
    let part = length-append junk back in
    let inside : is_range bvec (pos (length front)) (pos (length front + length junk)) ≡ true =
      ground (arith, whole, part) in
    let m : length front + length junk - length front ≡ length junk = omega arith in
    rw
      (
        subbytevector_fill,
        inside,
        m,
        byte-kept n h,
        take-length_append front (junk ++ back),
        drop-length_append front (junk ++ back),
        drop-length_append junk back,
      )
      refl

-- The bytes stored, by their number.
stored :
    (front junk back : List ℕ) (n : ℕ)
    → n < 256
    → (let bvec = front ++ (junk ++ back) in
        let start = length front in
        if ltb (length junk) 3
        then (if length junk == 0
            then bvec
            else if ltb 1 (length junk)
            then set (set bvec start n) (start + 1) n
            else set bvec start n)
        else bytes_of
            (subbytevector_fill (bytevector bvec) (pos start) (pos (start + length junk)) (pos n)))
      ≡ front ++ (replicate (length junk) n ++ back)
stored front [] back n h = refl
stored front (x ∷ []) back n h = set-middle front back x n
stored front (x ∷ (y ∷ [])) back n h =
    let next : length (front ++ (n ∷ [])) ≡ length front + 1 = length-append front (n ∷ []) in
    ap (λ t. set t (length front + 1) n) (set-middle front (y ∷ back) x n)
    ∙ ap (λ t. set t (length front + 1) n) (sym (append_assoc front (n ∷ []) (y ∷ back)))
    ∙ ap (λ k. set ((front ++ (n ∷ [])) ++ (y ∷ back)) k n) (sym next)
    ∙ set-middle (front ++ (n ∷ [])) back y n
    ∙ append_assoc front (n ∷ []) (n ∷ back)
stored front (x ∷ (y ∷ (z ∷ junk))) back n h =
    let many : ltb (suc (suc (suc (length junk)))) 3 ≡ false = ground arith in
    rw many (c_fill front (x ∷ (y ∷ (z ∷ junk))) back n h (omega arith))

pub fill_bytes-middle :
    (front junk back : List ℕ) (val : ℤ)
    → is_byte val ≡ true
    → fill_bytes (front ++ (junk ++ back)) (length front) (length front + length junk) val
      ≡ some (front ++ (replicate (length junk) (byte_of val) ++ back))
unfolding fill_bytes
fill_bytes-middle front junk back val h =
    let inside : leb (length front) (length front + length junk)
          && leb (length front + length junk) (length (front ++ (junk ++ back)))
        ≡ true =
      ground (arith, length-append front (junk ++ back), length-append junk back) in
    let m : length front + length junk - length front ≡ length junk = omega arith in
    rw (fill_bytes, inside, h, m) (ap some (stored front junk back (byte_of val) (byte_of-lt val)))

-- The bytes of a range of a span are replaced.
pub bytespan_fill-Gives :
    (sp : ByteSpan) (a junk b : List ℕ) (val : ℤ)
    → Holds sp (a ++ (junk ++ b))
    → is_byte val ≡ true
    → Gives
        (bytespan_fill sp (length a) (length a + length junk) val)
        (a ++ (replicate (length junk) (byte_of val) ++ b))
unfolding bytespan_fill
bytespan_fill-Gives sp a junk b val (f, back, e) h =
    let whole = length-append a (junk ++ b) in
    let part = length-append junk b in
    let filled = replicate (length junk) (byte_of val) in
    let size : length filled ≡ length junk = length-replicate (length junk) (byte_of val) in
    let c : leb (length a) (length a + length junk)
          && leb (length a + length junk) (length f + length (a ++ (junk ++ b)) - length f)
        ≡ true =
      ground (arith, whole, part) in
    let start : length a + length f ≡ length (f ++ a) = at_front f a in
    let end : length a + length junk + length f ≡ length (f ++ a) + length junk =
      omega (arith, at_front f a) in
    rw
      (
        e,
        c,
        start,
        end,
        regrouped_three f a junk b back,
        fill_bytes-middle (f ++ a) junk (b ++ back) val h,
      )
      (
        _,
        refl,
        (
          f,
          back,
          span-eq refl
              (omega
                (arith, whole, part, size, length-append a (filled ++ b), length-append filled b))
              (sym (regrouped_three f a filled b back)),
        ),
      )

asserted-none : (b : Bool) → asserted {A = List ℕ} b none ≡ none
asserted-none true = refl
asserted-none false = refl

fill_bytes-fails :
    (bvec : List ℕ) (start end : ℕ) (val : ℤ)
    → is_byte val ≡ false
    → fill_bytes bvec start end val ≡ none
unfolding fill_bytes
fill_bytes-fails bvec start end val h =
    rw (fill_bytes, h) (asserted-none (leb start end && leb end (length bvec)))

-- The range is out of range, or the value is no byte.
pub bytespan_fill-fails :
    (sp : ByteSpan) (xs : List ℕ) (start end : ℕ) (val : ℤ)
    → Holds sp xs
    → (leb start end && leb end (length xs) && is_byte val) ≡ false
    → bytespan_fill sp start end val ≡ none
unfolding bytespan_fill
bytespan_fill-fails sp xs start end val h k =
    elim (Bool-cases (leb start end && leb end (length xs))) [
      | inr b ↦ rw (bytespan_fill, Holds-length sp xs h, b) refl
      | inl b ↦
          let c : is_byte val ≡ false = ground arith in
          rw
            (
              bytespan_fill,
              Holds-length sp xs h,
              b,
              fill_bytes-fails sp.vec (start + sp.beg) (end + sp.beg) val c,
            )
            refl
    ]
