-- ===== src/ByteSpan/Whole.antt =====
-- containers/bytespan.ss and containers/bytevector.ss: filling, copying, comparing and visiting spans.
use schemesh.Base.{
  ℕ, zero, suc, ◌+◌, ◌-◌, ◌%◌, Bool, true, false, ◌&&◌, ◌||◌, not, Option, some, List, [], ◌∷◌, ltb,
  leb, ◌==◌, if◌then◌else◌, length, take, set,
}
use schemesh.Base.Int.{ℤ, pos, negsuc, neg, leb_ℤ}
use schemesh.Scheme.{Ptr, bytevector}
use schemesh.Bytevector.{subbytevector_fill}
use schemesh.ByteSpan.{
  ByteSpan, asserted, span_length, is_empty, bytespan_ref, bytespan_to_bytevector, bytevector_copy,
  ◌>>=◌,
}

-- `(fxand val 255)`, also below 0.
abbrev pub byte_of : ℤ → ℕ
byte_of (pos n) = n % 256
byte_of (negsuc n) = 255 - n % 256

-- `(fx<=? -128 val 255)`
abbrev pub is_byte : ℤ → Bool
is_byte val = leb_ℤ (neg 128) val && leb_ℤ val (pos 255)

-- The bytes of a bytevector.
abbrev pub bytes_of : Ptr → List ℕ
bytes_of (bytevector vec) = vec
bytes_of _ = []

-- `subbytevector-fill!`: one and two bytes are stored here, more by the C function.
unfoldable pub fill_bytes : List ℕ → ℕ → ℕ → ℤ → Option (List ℕ)
fill_bytes bvec start end val = asserted (leb start end && leb end (length bvec)) (
    asserted (is_byte val) (
      some (
        let u8 = byte_of val in
        let n = end - start in
        if ltb n 3
        then (if n == 0
            then bvec
            else if ltb 1 n
            then set (set bvec start u8) (start + 1) u8
            else set bvec start u8)
        else bytes_of (subbytevector_fill (bytevector bvec) (pos start) (pos end) (pos u8)))))

unfoldable pub bytespan_fill : ByteSpan → ℕ → ℕ → ℤ → Option ByteSpan
bytespan_fill sp start end val = asserted (leb start end && leb end (span_length sp)) (
    fill_bytes sp.vec (start + sp.beg) (end + sp.beg) val >>= λ vec. some (record sp { vec = vec }))

-- `bytespan->bytevector*!`: the bytevector, truncated, and the span that it is the data of, or a copy.
unfoldable pub bytespan_to_bytevector_in_place : ByteSpan → List ℕ × ByteSpan
unfolding bytespan_to_bytevector
bytespan_to_bytevector_in_place sp =
    if is_empty sp || not (sp.beg == 0)
    then (bytespan_to_bytevector sp, sp)
    else (let bv = take sp.end sp.vec in (bv, record sp { vec = bv }))

-- `fresh n` is a new bytevector of n bytes.
module _ (fresh : ℕ → List ℕ) where
  -- `bytespan->bytevector0`
  unfoldable pub bytespan_to_bytevector0 : ByteSpan → List ℕ
  bytespan_to_bytevector0 sp =
      if leb sp.end sp.beg
      then 0 ∷ []
      else (let n = sp.end - sp.beg in set (bytevector_copy sp.vec sp.beg (fresh (n + 1)) 0 n) n 0)

  -- `bytespan-copy`
  unfoldable pub bytespan_copied : ByteSpan → ByteSpan
  bytespan_copied src = record {
    beg = 0;
    end = span_length src;
    vec = bytevector_copy src.vec src.beg (fresh (span_length src)) 0 (span_length src);
  }

-- The loop of `bytespan=?` from i on, for rounds more bytes.
unfoldable pub equal_loop : ByteSpan → ByteSpan → ℕ → ℕ → Option Bool
unfolding bytespan_ref
equal_loop left right i zero = some true
equal_loop left right i (suc rounds) = do
  a ← bytespan_ref left i
  b ← bytespan_ref right i
  elim (a == b) [ true ↦ equal_loop left right (i + 1) rounds | false ↦ some false ]

-- `bytespan=?` of two different objects with different bytevectors.
unfoldable pub bytespan_equal : ByteSpan → ByteSpan → Option Bool
unfolding equal_loop
bytespan_equal left right =
    if span_length left == span_length right
    then equal_loop left right 0 (span_length left)
    else some false
