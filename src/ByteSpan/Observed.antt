-- ===== src/ByteSpan/Observed.antt =====
-- What is read of a span after operations on it.
use schemesh.Base.{ℕ, ◌≡◌, Option, some, List, [], ◌∷◌, ◌++◌, length, get_elem?}
use mathlib.Core.Path.{subst}
use schemesh.ByteSpan.{ByteSpan, bytespan_ref, bytespan_to_bytevector, bytevector_to_bytespan}
use schemesh.ByteSpan.Holds.{Holds, Holds-contents, bytespan_ref-Holds, bytevector-Holds}
use schemesh.ByteSpan.Spec.{Op, run, spec_run}
use schemesh.ByteSpan.Agrees.{Agrees}
use schemesh.ByteSpan.Refines.{run-Agrees}
use schemesh.ByteSpan.Whole.{
  bytespan_to_bytevector0, bytespan_copied, bytespan_to_bytevector_in_place, bytespan_equal,
}
use schemesh.ByteSpan.Reads.{
  same_bytes, bytespan_equal-Holds, bytevector0-Holds, copied-Holds, in_place-Holds,
}

-- A span that agrees with a sequence holds it.
agreed :
    (r : Option ByteSpan) (s : Option (List ℕ)) (q : ByteSpan) (ys : List ℕ)
    → r ≡ some q
    → s ≡ some ys
    → Agrees r s
    → Holds q ys
agreed r s q ys h k a = subst (Agrees (some q)) k (subst (λ t. Agrees t s) h a)

module _ (fresh : ℕ → List ℕ) (sized : (n : ℕ) → length (fresh n) ≡ n) where
  -- Let a span p be left by operations on a bytevector, and ys be what the same operations on sequences
  -- give; q and zs likewise. Then a position of p reads what stands there in ys, and none behind the end;
  -- the bytevector of p is ys, with a 0 behind it is ys and 0, and in place is ys and leaves ys in p; a
  -- copy of p has the bytes ys; and p and q are equal exactly if ys and zs are. It relies on a new
  -- bytevector having the length that was asked for.
  pub reads-run :
      (ops others : List Op) (xs vs : List ℕ) (p q : ByteSpan) (ys zs : List ℕ)
      → run fresh ops (bytevector_to_bytespan xs) ≡ some p
      → spec_run ops xs ≡ some ys
      → run fresh others (bytevector_to_bytespan vs) ≡ some q
      → spec_run others vs ≡ some zs
      → ((i : ℕ) → bytespan_ref p i ≡ get_elem? ys i)
        × (bytespan_to_bytevector p ≡ ys)
        × (bytespan_to_bytevector0 fresh p ≡ ys ++ (0 ∷ []))
        × ((bytespan_to_bytevector_in_place p).0 ≡ ys)
        × (bytespan_to_bytevector (bytespan_to_bytevector_in_place p).1 ≡ ys)
        × (bytespan_to_bytevector (bytespan_copied fresh p) ≡ ys)
        × (bytespan_equal p q ≡ some (same_bytes ys zs))
  reads-run ops others xs vs p q ys zs rp sp rq sq =
      let agree : (ops : List Op) (xs : List ℕ)
          → Agrees (run fresh ops (bytevector_to_bytespan xs)) (spec_run ops xs) =
        λ ops xs. run-Agrees fresh sized ops (bytevector_to_bytespan xs) xs (bytevector-Holds xs) in
      let h : Holds p ys = agreed _ _ p ys rp sp (agree ops xs) in
      let k : Holds q zs = agreed _ _ q zs rq sq (agree others vs) in
      let (kept, h') = in_place-Holds p ys h in
      (
        λ i. bytespan_ref-Holds p ys i h,
        Holds-contents p ys h,
        bytevector0-Holds p ys h fresh sized,
        kept,
        Holds-contents (bytespan_to_bytevector_in_place p).1 ys h',
        Holds-contents (bytespan_copied fresh p) ys (copied-Holds p ys h fresh),
        bytespan_equal-Holds p q ys zs h k,
      )
