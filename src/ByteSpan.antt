-- ===== src/ByteSpan.antt =====
-- containers/bytespan.ss: a growable range of bytes in a bytevector, from `beg` to `end`. `none` is a
-- condition raised: a failed assertion, or a value to store that is no byte; what it leaves of the span
-- is not modelled. Numbers are below the greatest fixnum, and two spans are different objects with
-- different bytevectors, as the code asserts.
pub mod Lists
pub mod Holds
pub mod Reserve
pub mod Insert
pub mod Whole
pub mod Fill
pub mod Reads
pub mod Spec
pub mod Agrees
pub mod Refines
pub mod Observed
mod Tests
use schemesh.Base.{
  ℕ, zero, suc, ◌+◌, ◌-◌, ◌*◌, min, max, Bool, true, false, ◌&&◌, not, Option, none, some, List, [],
  ◌∷◌, ◌++◌, ltb, leb, ◌==◌, if◌then◌else◌, length, take, drop, set, get_elem?,
}

infixl 5 ◌>>=◌
abbrev pub ◌>>=◌ : {A B : Type 0} → Option A → (A → Option B) → Option B
none >>= f = none
some a >>= f = f a

pub record ByteSpan : Type 0 where
  pub beg : ℕ
  pub end : ℕ
  pub vec : List ℕ

-- `assert*`
abbrev pub asserted {ℓ} : {A : Type ℓ} → Bool → Option A → Option A
asserted true r = r
asserted false r = none

-- `(bytevector-copy! src s dst d n)`: the new contents of dst.
abbrev pub bytevector_copy : List ℕ → ℕ → List ℕ → ℕ → ℕ → List ℕ
bytevector_copy src s dst d n = take d dst ++ (take n (drop s src) ++ drop (d + n) dst)

abbrev pub span_length : ByteSpan → ℕ
span_length sp = sp.end - sp.beg

abbrev pub capacity : ByteSpan → ℕ
capacity sp = length sp.vec

abbrev pub capacity_left : ByteSpan → ℕ
capacity_left sp = sp.end

abbrev pub capacity_right : ByteSpan → ℕ
capacity_right sp = length sp.vec - sp.beg

abbrev pub is_empty : ByteSpan → Bool
is_empty sp = leb sp.end sp.beg

-- `bytevector->bytespan*` and `list->bytespan`
abbrev pub bytevector_to_bytespan : List ℕ → ByteSpan
bytevector_to_bytespan vec = record { beg = 0; end = length vec; vec = vec }

-- `bytespan->bytevector`
unfoldable pub bytespan_to_bytevector : ByteSpan → List ℕ
bytespan_to_bytevector sp =
    if leb sp.end sp.beg then [] else take (sp.end - sp.beg) (drop sp.beg sp.vec)

unfoldable pub bytespan_clear : ByteSpan → ByteSpan
bytespan_clear sp = record sp { beg = 0; end = 0 }

unfoldable pub bytespan_ref : ByteSpan → ℕ → Option ℕ
bytespan_ref sp idx = asserted (ltb idx (span_length sp)) (get_elem? sp.vec (idx + sp.beg))

unfoldable pub bytespan_ref_right : ByteSpan → Option ℕ
bytespan_ref_right sp = asserted (not (is_empty sp)) (get_elem? sp.vec (sp.end - 1))

-- The second test is that of `bytevector-u8-set!`, which raises a condition on a value that is no byte.
unfoldable pub bytespan_set : ByteSpan → ℕ → ℕ → Option ByteSpan
bytespan_set sp idx u8 =
    asserted (ltb idx (span_length sp))
      (asserted (leb u8 255) (some (record sp { vec = set sp.vec (idx + sp.beg) u8 })))

-- The new contents of dst.
unfoldable pub bytespan_copy : ByteSpan → ℕ → ByteSpan → ℕ → ℕ → Option ByteSpan
bytespan_copy src src_start dst dst_start n =
    asserted (leb (src_start + n) (span_length src) && leb (dst_start + n) (span_length dst)) (
      some (record dst {
        vec = bytevector_copy src.vec (src_start + src.beg) dst.vec (dst_start + dst.beg) n;
      }))

-- `fresh n` is a new bytevector of n bytes, whose contents are not specified.
module _ (fresh : ℕ → List ℕ) where
  unfoldable pub reallocate_left : ByteSpan → ℕ → ℕ → Option ByteSpan
  reallocate_left sp len cap = asserted (leb len cap) (
      some (record {
        beg = cap - len;
        end = cap;
        vec = bytevector_copy sp.vec sp.beg (fresh cap) (cap - len) (min len (span_length sp));
      }))

  unfoldable pub reallocate_right : ByteSpan → ℕ → ℕ → Option ByteSpan
  reallocate_right sp len cap = asserted (leb len cap) (
      some (record {
        beg = 0;
        end = len;
        vec = bytevector_copy sp.vec sp.beg (fresh cap) 0 (min len (span_length sp));
      }))

  -- The three cases: nothing to do, move the bytes to the back, reallocate.
  unfoldable pub reserve_left : ByteSpan → ℕ → Option ByteSpan
  unfolding reallocate_left
  reserve_left sp len =
      if leb len (capacity_left sp)
      then some sp
      else if leb len (capacity sp)
      then some (record {
        beg = capacity sp - span_length sp;
        end = capacity sp;
        vec = bytevector_copy sp.vec sp.beg sp.vec (capacity sp - span_length sp) (span_length sp);
      })
      else reallocate_left sp (span_length sp) (max 8 (max len (2 * capacity_left sp)))

  -- Here the bytes are moved to the front.
  unfoldable pub reserve_right : ByteSpan → ℕ → Option ByteSpan
  unfolding reallocate_right
  reserve_right sp len =
      if leb len (capacity_right sp)
      then some sp
      else if leb len (capacity sp)
      then some (record {
        beg = 0;
        end = span_length sp;
        vec = bytevector_copy sp.vec sp.beg sp.vec 0 (span_length sp);
      })
      else reallocate_right sp (span_length sp) (max 8 (max len (2 * capacity_right sp)))

  unfoldable pub resize_left : ByteSpan → ℕ → Option ByteSpan
  unfolding reserve_left
  resize_left sp len = do
    q ← reserve_left sp len
    asserted (leb len (capacity_left q)) (some (record q { beg = q.end - len }))

  unfoldable pub resize_right : ByteSpan → ℕ → Option ByteSpan
  unfolding reserve_right
  resize_right sp len = do
    q ← reserve_right sp len
    asserted (leb len (capacity_right q)) (some (record q { end = len + q.beg }))

  -- The loop that stores the bytes from position pos on.
  unfoldable pub set_all : ByteSpan → ℕ → List ℕ → Option ByteSpan
  unfolding bytespan_set
  set_all sp pos [] = some sp
  set_all sp pos (elem ∷ u8vals) = do q ← bytespan_set sp pos elem; set_all q (pos + 1) u8vals

  unfoldable pub insert_left_u8 : ByteSpan → List ℕ → Option ByteSpan
  insert_left_u8 sp [] = some sp
  insert_left_u8 sp (u8 ∷ u8vals) = do
    q ← resize_left sp (span_length sp + length (u8 ∷ u8vals))
    set_all q 0 (u8 ∷ u8vals)

  -- The cases of one, two and three bytes do the same without a loop.
  unfoldable pub insert_right_u8 : ByteSpan → List ℕ → Option ByteSpan
  insert_right_u8 sp [] = some sp
  insert_right_u8 sp (u8 ∷ u8vals) = do
    q ← resize_right sp (span_length sp + length (u8 ∷ u8vals))
    set_all q (span_length sp) (u8 ∷ u8vals)

  unfoldable pub insert_left_bytespan : ByteSpan → ByteSpan → ℕ → ℕ → Option ByteSpan
  insert_left_bytespan dst src start end = asserted (leb start end && leb end (span_length src)) (
      if ltb start end
      then (resize_left dst (span_length dst + (end - start)) >>= λ q.
          bytespan_copy src start q 0 (end - start))
      else some dst)

  unfoldable pub insert_right_bytespan : ByteSpan → ByteSpan → ℕ → ℕ → Option ByteSpan
  insert_right_bytespan dst src start end = asserted (leb start end && leb end (span_length src)) (
      if ltb start end
      then (resize_right dst (span_length dst + (end - start)) >>= λ q.
          bytespan_copy src start q (span_length dst) (end - start))
      else some dst)

  unfoldable pub insert_left_bytevector : ByteSpan → List ℕ → ℕ → ℕ → Option ByteSpan
  insert_left_bytevector dst src start end = asserted (leb start end && leb end (length src)) (
      if ltb start end
      then insert_left_bytespan dst (bytevector_to_bytespan src) start end
      else some dst)

  unfoldable pub insert_right_bytevector : ByteSpan → List ℕ → ℕ → ℕ → Option ByteSpan
  insert_right_bytevector dst src start end =
      if not (start == end)
      then insert_right_bytespan dst (bytevector_to_bytespan src) start end
      else some dst

unfoldable pub delete_left : ByteSpan → ℕ → Option ByteSpan
delete_left sp n =
    asserted (leb n (span_length sp))
      (if not (n == 0) then some (record sp { beg = n + sp.beg }) else some sp)

unfoldable pub delete_right : ByteSpan → ℕ → Option ByteSpan
delete_right sp n =
    asserted (leb n (span_length sp))
      (if not (n == 0) then some (record sp { end = sp.end - n }) else some sp)

-- `bytespan-index/u8`, from i on, for rounds more bytes.
unfoldable pub index_loop : ByteSpan → (ℕ → Bool) → ℕ → ℕ → Option (Option ℕ)
unfolding bytespan_ref
index_loop sp predicate zero i = some none
index_loop sp predicate (suc rounds) i = elim (bytespan_ref sp i) [
  | none ↦ none
  | some u8 ↦ elim (predicate u8) [
    | true ↦ some (some i)
    | false ↦ index_loop sp predicate rounds (i + 1)
  ]
]

unfoldable pub bytespan_index : ByteSpan → ℕ → ℕ → (ℕ → Bool) → Option (Option ℕ)
unfolding index_loop
bytespan_index sp start end predicate =
    asserted (leb start end && leb end (span_length sp))
      (index_loop sp predicate (end - start) start)
