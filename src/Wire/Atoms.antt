-- ===== src/Wire/Atoms.antt =====
-- Integers, chars, strings and bytevectors are read as they were written.
use schemesh.Base.{
  ℕ, zero, suc, ◌-◌, ◌*◌, ◌/◌, ◌%◌, ◌^◌, ◌≤◌, ◌<◌, ◌≡◌, refl, ◌∙◌, ap, sym, true, false, none, some,
  List, [], ◌∷◌, ◌++◌, ltb, leb, ◌&&◌, length, take, drop, arith, Bool-cases, inl, inr,
  length-append,
}
use native.Mathlib.Nat.{pow-suc}
use mathlib.Core.Path.{subst}
use schemesh.Base.Int.{ℤ, pos, negsuc, neg, leb_ℤ}
use schemesh.Wire.{
  Datum, integer, atom, Read, got, le_bytes, le_value, unsigned, signed, put_exact_sint,
  get_exact_s8, get_exact,
}
use schemesh.Wire.Data.{get_tagged, get_any}

pub length-le_bytes : (n v : ℕ) → length (le_bytes n v) ≡ n
length-le_bytes zero v = refl
length-le_bytes (suc n) v = ap suc (length-le_bytes n (v / 256))

pub value-le_bytes : (n v : ℕ) → v < 256 ^ n → le_value (le_bytes n v) ≡ v
value-le_bytes zero v h = omega arith
value-le_bytes (suc n) v h =
    omega (arith, pow-suc 256 n, value-le_bytes n (v / 256) (omega (arith, pow-suc 256 n)))

pub take-le_bytes : (n v : ℕ) (rest : List ℕ) → take n (le_bytes n v ++ rest) ≡ le_bytes n v
take-le_bytes zero v rest = refl
take-le_bytes (suc n) v rest = ap (λ t. v % 256 ∷ t) (take-le_bytes n (v / 256) rest)

pub drop-le_bytes : (n v : ℕ) (rest : List ℕ) → drop n (le_bytes n v ++ rest) ≡ rest
drop-le_bytes zero v rest = refl
drop-le_bytes (suc n) v rest = drop-le_bytes n (v / 256) rest

pub enough-le_bytes : (n v : ℕ) (rest : List ℕ) → leb n (length (le_bytes n v ++ rest)) ≡ true
enough-le_bytes n v rest = ground (arith, length-append (le_bytes n v) rest, length-le_bytes n v)

-- The numbers that n bytes hold in two's complement.
abbrev InRange : ℕ → ℤ → Type 0
InRange n (pos i) = 2 * i < 256 ^ n
InRange n (negsuc i) = 2 * suc i ≤ 256 ^ n

signed-unsigned : (n : ℕ) (i : ℤ) → InRange n i → signed n (unsigned n i) ≡ i
signed-unsigned n (pos i) h = ground arith
signed-unsigned n (negsuc i) h =
    let b : ltb (2 * (256 ^ n - 1 - i)) (256 ^ n) ≡ false = ground arith in
    let e : 256 ^ n - 1 - (256 ^ n - 1 - i) ≡ i = omega arith in rw (b, e) refl

unsigned-lt : (n : ℕ) (i : ℤ) → InRange n i → unsigned n i < 256 ^ n
unsigned-lt n (pos i) h = omega arith
unsigned-lt n (negsuc i) h = omega arith

get_exact-le_bytes :
    (n : ℕ) (i : ℤ) (rest : List ℕ)
    → InRange n i
    → get_exact n (le_bytes n (unsigned n i) ++ rest) ≡ got (atom (integer i)) rest
unfolding get_exact
get_exact-le_bytes n i rest h =
    let u = unsigned n i in
    rw
      (
        get_exact,
        enough-le_bytes n u rest,
        take-le_bytes n u rest,
        drop-le_bytes n u rest,
        value-le_bytes n u (unsigned-lt n i h),
        signed-unsigned n i h,
      )
      refl

-- Bytes that are read as a datum, whatever follows.
abbrev pub Reads : List ℕ → Datum → Type 0
Reads bytes d = (fuel : ℕ) (rest : List ℕ) → get_any (suc fuel) (bytes ++ rest) ≡ got d rest

pub some-injective : {A : Type 0} {a b : A} → some a ≡ some b → a ≡ b
some-injective h = cc

pub Reads-some : {xs bytes : List ℕ} {d : Datum} → some xs ≡ some bytes → Reads xs d → Reads bytes d
Reads-some {d} h r = subst (λ t. Reads t d) (some-injective h) r

pub Reads-eq : {xs bytes : List ℕ} {d : Datum} → bytes ≡ xs → Reads xs d → Reads bytes d
Reads-eq {d} h r = subst (λ t. Reads t d) (sym h) r

tagged_int :
    (tag n : ℕ) (i : ℤ)
    → InRange n i
    → ((read : List ℕ → Read Datum) (bytes : List ℕ)
        → get_tagged read tag bytes ≡ get_exact n bytes)
    → Reads (tag ∷ le_bytes n (unsigned n i)) (atom (integer i))
unfolding get_any
tagged_int tag n i h k fuel rest =
    k (get_any fuel) (le_bytes n (unsigned n i) ++ rest) ∙ get_exact-le_bytes n i rest h

byte_int : (i : ℤ) → InRange 1 i → Reads (16 ∷ le_bytes 1 (unsigned 1 i)) (atom (integer i))
unfolding get_any get_tagged get_exact_s8
byte_int i h fuel rest =
    let small : unsigned 1 i % 256 ≡ unsigned 1 i = omega (arith, unsigned-lt 1 i h) in
    ap (λ j. got (atom (integer j)) rest) (ap (signed 1) small ∙ signed-unsigned 1 i h)

small_int :
    (i : ℤ)
    → leb_ℤ (pos 0) i && leb_ℤ i (pos 10) ≡ true
    → Reads (unsigned 1 i ∷ []) (atom (integer i))
unfolding get_any get_tagged
small_int (pos n) h fuel rest =
    let b : leb n 10 ≡ true = ground arith in rw (get_any, get_tagged, b) refl
small_int (negsuc n) h fuel rest = absurd (ground arith)

negative_int :
    (i : ℤ)
    → leb_ℤ (neg 5) i && leb_ℤ i (neg 1) ≡ true
    → Reads ((unsigned 1 i - 240) ∷ []) (atom (integer i))
unfolding get_any get_tagged
negative_int (pos n) h fuel rest = absurd (ground arith)
negative_int (negsuc zero) h fuel rest = refl
negative_int (negsuc (suc zero)) h fuel rest = refl
negative_int (negsuc (suc (suc zero))) h fuel rest = refl
negative_int (negsuc (suc (suc (suc zero)))) h fuel rest = refl
negative_int (negsuc (suc (suc (suc (suc zero))))) h fuel rest = refl
negative_int (negsuc (suc (suc (suc (suc (suc n)))))) h fuel rest = absurd (ground arith)

within :
    (n : ℕ) (i : ℤ) (low high : ℕ)
    → leb_ℤ (neg low) i && leb_ℤ i (pos high) ≡ true
    → 2 * low ≤ 256 ^ n
    → 2 * high < 256 ^ n
    → InRange n i
within n (pos i) low high h a b = ground arith
within n (negsuc i) low high h a b = ground arith

module _ (read : List ℕ → Read Datum) (bytes : List ℕ) where
  tag_s16 : get_tagged read 17 bytes ≡ get_exact 2 bytes
  unfolding get_tagged
  tag_s16 = refl

  tag_s24 : get_tagged read 18 bytes ≡ get_exact 3 bytes
  unfolding get_tagged
  tag_s24 = refl

  tag_s32 : get_tagged read 19 bytes ≡ get_exact 4 bytes
  unfolding get_tagged
  tag_s32 = refl

pub put_exact_sint-Reads :
    (i : ℤ) (bytes : List ℕ) → put_exact_sint i ≡ some bytes → Reads bytes (atom (integer i))
unfolding put_exact_sint
put_exact_sint-Reads i bytes e = elim (Bool-cases (leb_ℤ (pos 0) i && leb_ℤ i (pos 10))) [
  | inl a ↦ Reads-some (rw (put_exact_sint, a) at e) (small_int i a)
  | inr a ↦ elim (Bool-cases (leb_ℤ (neg 5) i && leb_ℤ i (neg 1))) [
    | inl b ↦ Reads-some (rw (put_exact_sint, a, b) at e) (negative_int i b)
    | inr b ↦ elim (Bool-cases (leb_ℤ (neg 0x80) i && leb_ℤ i (pos 0x7f))) [
      | inl c ↦
          Reads-some (rw (put_exact_sint, a, b, c) at e)
            (byte_int i (within 1 i 0x80 0x7f c (omega arith) (omega arith)))
      | inr c ↦ elim (Bool-cases (leb_ℤ (neg 0x8000) i && leb_ℤ i (pos 0x7fff))) [
        | inl d ↦
            Reads-some (rw (put_exact_sint, a, b, c, d) at e)
              (tagged_int 17 2 i (within 2 i 0x8000 0x7fff d (omega arith) (omega arith)) tag_s16)
        | inr d ↦ elim (Bool-cases (leb_ℤ (neg 0x800000) i && leb_ℤ i (pos 0x7fffff))) [
          | inl f ↦ Reads-some (rw (put_exact_sint, a, b, c, d, f) at e) (
              tagged_int 18 3 i (within 3 i 0x800000 0x7fffff f (omega arith) (omega arith))
                tag_s24)
          | inr f ↦ elim (Bool-cases (leb_ℤ (neg 0x80000000) i && leb_ℤ i (pos 0x7fffffff))) [
            | inl g ↦ Reads-some (rw (put_exact_sint, a, b, c, d, f, g) at e) (
                tagged_int 19 4 i (within 4 i 0x80000000 0x7fffffff g (omega arith) (omega arith))
                  tag_s32)
            | inr g ↦
                let no : none ≡ some bytes = (rw (put_exact_sint, a, b, c, d, f, g) at e) in
                absurd (cc)
          ]
        ]
      ]
    ]
  ]
]
