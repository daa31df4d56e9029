-- ===== src/Bytevector.antt =====
-- containers/containers.c: comparing, filling, hashing and searching bytevectors.
pub mod Compare
pub mod Hash
pub mod Search
mod Tests
use schemesh.Base.{
  ℕ, zero, suc, ◌+◌, ◌-◌, ◌*◌, ◌/◌, ◌%◌, ◌^◌, min, bit_and, bit_xor, Bool, true, false, ◌&&◌, ◌||◌,
  Option, none, some, List, [], ◌∷◌, ◌++◌, ltb, leb, ◌==◌, if◌then◌else◌, length, take, drop,
  replicate,
}
use schemesh.Base.Int.{ℤ, pos, negsuc, pos_part, neg, ltb_ℤ, leb_ℤ}
use schemesh.Scheme.{Ptr, sfalse, fixnum, bytevector}

-- `memcmp(left, right, n)`, of which the code reads the sign.
unfoldable pub memcmp : List ℕ → List ℕ → ℕ → ℤ
memcmp (a ∷ left) (b ∷ right) (suc n) =
    let rest = memcmp left right n in if ltb a b then negsuc 0 else if ltb b a then pos 1 else rest
memcmp _ _ _ = pos 0

abbrev sign : ℤ → ℤ
sign cmp = if ltb_ℤ cmp (pos 0) then negsuc 0 else pos 1

unfoldable pub bytevector_compare : List ℕ → List ℕ → ℤ
unfolding memcmp
bytevector_compare left right =
    let left_n = length left in
    let right_n = length right in
    let n = (if ltb left_n right_n then left_n else right_n) in
    let cmp = memcmp left right n in
    let shorter_first : ℤ =
      (if ltb left_n right_n then negsuc 0 else if ltb right_n left_n then pos 1 else pos 0) in
    if ltb 0 n && (ltb_ℤ cmp (pos 0) || ltb_ℤ (pos 0) cmp) then sign cmp else shorter_first

-- `value & 0xFF` of an int: a negative one is 2^32 more as a bit pattern.
abbrev pub low_byte : ℤ → ℕ
low_byte (pos n) = bit_and n 0xFF
low_byte (negsuc n) = bit_and (2 ^ 32 - 1 - n) 0xFF

-- `0 <= start && start < end && end <= length`
abbrev pub is_range : List ℕ → ℤ → ℤ → Bool
is_range bvec start end = leb_ℤ (pos 0) start && ltb_ℤ start end && leb_ℤ end (pos (length bvec))

-- `memset(data, byte, n)`
abbrev pub memset : List ℕ → ℕ → ℕ → List ℕ
memset bytes byte n = replicate n byte ++ drop n bytes

unfoldable pub subbytevector_fill : Ptr → ℤ → ℤ → ℤ → Ptr
subbytevector_fill (bytevector bvec) start end value =
    if is_range bvec start end
    then bytevector (
        take (pos_part start) bvec
        ++ memset (drop (pos_part start) bvec) (low_byte value) (pos_part end - pos_part start))
    else bytevector bvec
subbytevector_fill bvec start end value = bvec

-- `memchr(data, byte, n)`: the position of the first such byte.
unfoldable pub memchr : List ℕ → ℕ → ℕ → Option ℕ
memchr (b ∷ bs) byte (suc n) =
    let rest = memchr bs byte n in
    if b == byte then some 0 else elim rest [ none ↦ none | some i ↦ some (suc i) ]
memchr _ byte n = none

-- `Sfixnum(match - data)`, where `data` is the address of the byte at `start`.
unfoldable pub bytevector_index_u8 : Ptr → ℤ → ℤ → ℤ → Ptr
unfolding memchr
bytevector_index_u8 (bytevector bvec) start end value =
    if is_range bvec start end
    then (let found =
          memchr (drop (pos_part start) bvec) (low_byte value) (pos_part end - pos_part start) in
        elim found [ none ↦ sfalse | some i ↦ fixnum (pos i) ])
    else sfalse
bytevector_index_u8 bvec start end value = sfalse

-- The 64-bit constants: `SIZE_MAX` is 2^64 - 1.
abbrev pub prime : ℕ
prime = 0x100000001b3

abbrev pub hash_start : ℕ
hash_start = 0xcbf29ce484222325

-- The loop `hash ^= data[i]; hash *= prime;` on a 64-bit size_t.
unfoldable pub fnv1a_loop : ℕ → List ℕ → ℕ
fnv1a_loop hash [] = hash
fnv1a_loop hash (b ∷ bs) = fnv1a_loop (bit_xor hash b * prime % 2 ^ 64) bs

unfoldable pub fnv1a : List ℕ → ℕ
unfolding fnv1a_loop
fnv1a bytes = fnv1a_loop hash_start bytes

-- `Sfixnum_value(Sfixnum(n))`: n times 8 in 64 bits, the top bit of which is the sign.
abbrev pub sfixnum : ℕ → ℤ
sfixnum n = let low = n % 2 ^ 61 in if ltb low (2 ^ 60) then pos low else negsuc (2 ^ 61 - 1 - low)

unfoldable pub fnv1a_unsigned_fixnum : List ℕ → ℤ
unfolding fnv1a
fnv1a_unsigned_fixnum bytes =
    let hash = fnv1a bytes in
    if ltb_ℤ (sfixnum hash) (pos 0) then sfixnum (2 ^ 64 - 1 - hash) else sfixnum hash

unfoldable pub bytevector_hash : List ℕ → ℤ
unfolding fnv1a_unsigned_fixnum
bytevector_hash bytes = fnv1a_unsigned_fixnum bytes

-- `smake_bytevector` is Chez Scheme's `Smake_bytevector(n, 0)`, where `none` is a raised condition.
-- `memcpy` takes the first `len` of the bytes at `chars`.
unfoldable pub sbytevector : (ℤ → Option (List ℕ)) → List ℕ → ℕ → Option Ptr
sbytevector smake_bytevector chars len =
    let bvec_len = (if ltb len (2 ^ 63) then pos len else negsuc 0) in
    elim (smake_bytevector bvec_len) [
      | none ↦ none
      | some bvec ↦ some (bytevector (take len chars ++ drop len bvec))
    ]
