-- ===== src/Shell/Environ.antt =====
-- Which entries of the environment the shell reads.
use native.Mathlib.Nat.{suc-add}
use mathlib.Core.List.{append-nil}
use schemesh.Base.{
  ℕ, zero, suc, ◌+◌, ◌≡◌, refl, ◌∙◌, sym, false, Option, none, some, List, [], ◌∷◌, ◌++◌, ◌==◌,
  length, drop, get_elem?, get_elem?-append_right, drop-all, arith,
}
use schemesh.Base.Int.{ℤ}
use schemesh.Scheme.{
  Ptr, sfalse, strue, snil, fixnum, char, string, bytevector, symbol, pair, vector,
}
use schemesh.Shell.{split_at, environ_entry, environ_ref, environ_loop}

drop-suc :
    (i : ℕ) (xs : List (List ℕ)) (y : List ℕ) (ys : List (List ℕ))
    → drop i xs ≡ y ∷ ys
    → (get_elem? xs i ≡ some y) × (drop (suc i) xs ≡ ys)
drop-suc zero (x ∷ xs) y ys h = ground arith
drop-suc zero [] y ys h = absurd (ground arith)
drop-suc (suc i) [] y ys h = absurd (ground arith)
drop-suc (suc i) (x ∷ xs) y ys h = drop-suc i xs y ys h

drop_end : (i : ℕ) (xs : List (List ℕ)) → drop i xs ≡ [] → get_elem? xs i ≡ none
drop_end zero [] h = refl
drop_end zero (x ∷ xs) h = absurd (ground arith)
drop_end (suc i) [] h = refl
drop_end (suc i) (x ∷ xs) h = drop_end i xs h

-- The character c is none of a text's.
abbrev pub Lacks : ℕ → List ℕ → Type 0
Lacks c [] = Unit {0}
Lacks c (b ∷ bs) = ((b == c) ≡ false) × Lacks c bs

split_at-none : (c : ℕ) (bs : List ℕ) → Lacks c bs → split_at c bs ≡ none
unfolding split_at
split_at-none c [] h = refl
split_at-none c (b ∷ bs) (h, k) = rw (h, split_at-none c bs k) refl

pub split_at-some :
    (c : ℕ) (name value : List ℕ)
    → Lacks c name
    → split_at c (name ++ (c ∷ value)) ≡ some (name, value)
unfolding split_at
split_at-some c [] value h = ground arith
split_at-some c (b ∷ name) value (h, k) = rw (h, split_at-some c name value k) refl

module _ (smake_string : ℤ → Option (List ℕ)) where
  -- An entry for which the C function returns a pair.
  abbrev pub Gives : List ℕ → Ptr → Type 0
  Gives entry (pair key val) = environ_entry smake_string entry ≡ some (pair key val)
  Gives entry _ = ⊥

  abbrev pub GivesAll : List (List ℕ) → List Ptr → Type 0
  GivesAll [] [] = Unit {0}
  GivesAll (entry ∷ entries) (p ∷ ps) = Gives entry p × GivesAll entries ps
  GivesAll _ _ = ⊥

  entry_at :
      (environ : List (List ℕ)) (i : ℕ) (entry : List ℕ)
      → get_elem? environ i ≡ some entry
      → environ_ref smake_string environ i ≡ environ_entry smake_string entry
  unfolding environ_ref
  entry_at environ i entry h = rw (environ_ref, h) refl

  no_entry :
      (environ : List (List ℕ)) (i : ℕ)
      → get_elem? environ i ≡ none
      → environ_ref smake_string environ i ≡ some sfalse
  unfolding environ_ref
  no_entry environ i h = rw (environ_ref, h) refl

  no_name : (entry : List ℕ) → Lacks b'=' entry → environ_entry smake_string entry ≡ some sfalse
  unfolding environ_entry
  no_name entry h = rw (environ_entry, split_at-none b'=' entry h) refl

  loop_pair :
      (rounds : ℕ) (environ : List (List ℕ)) (i : ℕ) (key val : Ptr) (ps : List Ptr)
      → environ_ref smake_string environ i ≡ some (pair key val)
      → environ_loop smake_string rounds environ (suc i) ≡ some ps
      → environ_loop smake_string (suc rounds) environ i ≡ some (pair key val ∷ ps)
  unfolding environ_loop
  loop_pair rounds environ i key val ps h k = rw (environ_loop, h, k) refl

  loop_stop :
      (rounds : ℕ) (environ : List (List ℕ)) (i : ℕ)
      → environ_ref smake_string environ i ≡ some sfalse
      → environ_loop smake_string (suc rounds) environ i ≡ some []
  unfolding environ_loop
  loop_stop rounds environ i h = rw (environ_loop, h) refl

  -- The position behind the entries, from position i on.
  abbrev Stops : List (List ℕ) → ℕ → List (List ℕ) → Type 0
  Stops environ i entries =
      (j : ℕ) → j ≡ i + length entries → environ_ref smake_string environ j ≡ some sfalse

  loop_from :
      (rounds : ℕ) (environ : List (List ℕ)) (i : ℕ) (entries tail : List (List ℕ)) (ps : List Ptr)
      → drop i environ ≡ entries ++ tail
      → GivesAll entries ps
      → Stops environ i entries
      → environ_loop smake_string (suc (length entries + rounds)) environ i ≡ some ps
  loop_from rounds environ i [] tail [] d g h = loop_stop _ environ i (h i (omega arith))
  loop_from rounds environ i [] tail (p ∷ ps) d g h = absurd g
  loop_from rounds environ i (entry ∷ entries) tail [] d g h = absurd g
  loop_from rounds environ i (entry ∷ entries) tail (pair key val ∷ ps) d (g, gs) h =
      let (e, d') = drop-suc i environ entry (entries ++ tail) d in
      rw suc-add (
        loop_pair _ environ i key val ps (entry_at environ i entry e ∙ g)
          (loop_from rounds environ (suc i) entries tail ps d' gs (λ j k. h j (omega (arith, k)))))
  loop_from rounds environ i (entry ∷ entries) tail ((fixnum n) ∷ ps) d (g, gs) h = absurd g
  loop_from rounds environ i (entry ∷ entries) tail (sfalse ∷ ps) d (g, gs) h = absurd g
  loop_from rounds environ i (entry ∷ entries) tail (strue ∷ ps) d (g, gs) h = absurd g
  loop_from rounds environ i (entry ∷ entries) tail (snil ∷ ps) d (g, gs) h = absurd g
  loop_from rounds environ i (entry ∷ entries) tail ((char c) ∷ ps) d (g, gs) h = absurd g
  loop_from rounds environ i (entry ∷ entries) tail ((string t) ∷ ps) d (g, gs) h = absurd g
  loop_from rounds environ i (entry ∷ entries) tail ((bytevector b) ∷ ps) d (g, gs) h = absurd g
  loop_from rounds environ i (entry ∷ entries) tail ((symbol t) ∷ ps) d (g, gs) h = absurd g
  loop_from rounds environ i (entry ∷ entries) tail ((vector v) ∷ ps) d (g, gs) h = absurd g

  -- If each entry of the environment gives a pair, then all of them are read, in their order.
  pub environ_loop-all :
      (extra : ℕ) (entries : List (List ℕ)) (ps : List Ptr)
      → GivesAll entries ps
      → environ_loop smake_string (suc (length entries + extra)) entries 0 ≡ some ps
  environ_loop-all extra entries ps g =
      loop_from extra entries 0 entries [] ps (sym (append-nil entries)) g
        (λ j k. no_entry entries j (drop_end j entries (drop-all j entries (omega (arith, k)))))

  -- If the entries in front of one without a '=' give pairs, then these are all that is read: whatever
  -- variables stand behind that entry are lost.
  pub environ_loop-stops :
      (extra : ℕ) (entries : List (List ℕ)) (bad : List ℕ) (rest : List (List ℕ)) (ps : List Ptr)
      → GivesAll entries ps
      → Lacks b'=' bad
      → environ_loop smake_string (suc (length entries + extra)) (entries ++ (bad ∷ rest)) 0
        ≡ some ps
  environ_loop-stops extra entries bad rest ps g h =
      loop_from extra (entries ++ (bad ∷ rest)) 0 entries (bad ∷ rest) ps refl g (λ j k.
        let e = get_elem?-append_right entries (bad ∷ rest) j 0 (omega (arith, k)) in
        entry_at (entries ++ (bad ∷ rest)) j bad e ∙ no_name bad h)
