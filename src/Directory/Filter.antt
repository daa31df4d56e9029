-- ===== src/Directory/Filter.antt =====
-- posix/posix.c, `c_directory_list1`: which names pass the prefix and the suffix of a listing.
use schemesh.Base.{
  ℕ, zero, suc, ◌≡◌, refl, sym, ◌∙◌, ◌-◌, ◌≤◌, Bool, true, false, ◌||◌, ◌&&◌, not, Option, none,
  some, List, [], ◌∷◌, ◌++◌, length, take, drop, arith, ltb, ◌==◌, if◌then◌else◌, length-drop,
  take-all, drop-all,
}
use schemesh.Base.Int.{ℤ, pos, negsuc, eq_ℤ}
use schemesh.Bytevector.{memcmp}
use schemesh.Directory.{
  Entry, DirectoryListOpts, e_dir, dirent_type2, directory_list1_name, ignored, differ,
}

memcmp-eq :
    (a b : List ℕ) (n : ℕ)
    → n ≤ length a
    → n ≤ length b
    → memcmp a b n ≡ pos 0
    → take n a ≡ take n b
unfolding memcmp
memcmp-eq a b zero h k e = refl
memcmp-eq [] b (suc n) h k e = absurd (omega arith)
memcmp-eq (x ∷ a) [] (suc n) h k e = absurd (omega arith)
memcmp-eq (x ∷ a) (y ∷ b) (suc n) h k e = ground (arith, memcmp-eq a b n)

eq_ℤ-zero : (z : ℤ) → eq_ℤ z (pos 0) ≡ true → z ≡ pos 0
eq_ℤ-zero (pos n) e = ground arith
eq_ℤ-zero (negsuc n) e = ground arith

differ-take :
    (a b : List ℕ) → length b ≤ length a → differ a b (length b) ≡ false → take (length b) a ≡ b
differ-take a b h e =
    memcmp-eq a b (length b) h (omega arith) (eq_ℤ-zero (memcmp a b (length b)) (ground arith))
    ∙ take-all (length b) b (omega arith)

-- The pattern is empty, or the tests passed and the length fits.
begins :
    (a b : List ℕ)
    → not (length b == 0) && (ltb (length a) (length b) || differ a b (length b)) ≡ false
    → take (length b) a ≡ b
begins a [] e = refl
begins a (x ∷ b) e = differ-take a (x ∷ b) (ground arith) (ground arith)

finishes :
    (a b : List ℕ)
    → not (length b == 0)
        && (ltb (length a) (length b) || differ (drop (length a - length b) a) b (length b))
      ≡ false
    → drop (length a - length b) a ≡ b
finishes a [] e = drop-all (length a - 0) a (omega arith)
finishes a (x ∷ b) e =
    sym (take-all (suc (length b)) tail (omega (arith, fits)))
    ∙ differ-take tail (x ∷ b) (omega (arith, fits)) (ground arith)
  where
    tail : List ℕ
    tail = drop (length a - length (x ∷ b)) a

    long : suc (length b) ≤ length a
    long = ground arith

    fits : length tail ≡ suc (length b)
    fits = length-drop (length a - length (x ∷ b)) a ∙ omega (arith, long)

starts :
    (opts : DirectoryListOpts) (name : List ℕ)
    → ignored opts name ≡ false
    → take (length opts.prefix) name ≡ opts.prefix
unfolding ignored
starts opts name h = begins name opts.prefix (ground arith)

ends :
    (opts : DirectoryListOpts) (name : List ℕ)
    → ignored opts name ≡ false
    → drop (length name - length opts.suffix) name ≡ opts.suffix
unfolding ignored
ends opts name h = finishes name opts.suffix (ground arith)

fits :
    (opts : DirectoryListOpts) (name : List ℕ)
    → ignored opts name ≡ false
    → opts.prefix_has_slash ≡ true
    → length name ≡ length opts.prefix
unfolding ignored
fits opts name h p = ground arith

chosen :
    {A : Type 0} (a b c : Bool) (x y z : A)
    → (if a then none else if b then some x else if c then none else some y) ≡ some z
    → (z ≡ (if b then x else y)) × (c ≡ true → b ≡ true)
chosen true b c x y z e = absurd (ground arith)
chosen false true c x y z e = (ground arith, (λ s. refl))
chosen false false true x y z e = absurd (ground arith)
chosen false false false x y z e = (ground arith, (λ s. s))

shape :
    {A B : Type 0} (x y z : A) (t u : B) (b : Bool)
    → ◌≡◌ {A = A × B} (z, u) (if b then (x, t) else (y, t))
    → z ≡ (if b then x else y)
shape x y z t u true e = ground arith
shape x y z t u false e = ground arith

module _ (fstatat : List ℕ → Option ℕ) where
  -- A filename that is listed is the name of the entry, or that name and a slash; the name begins
  -- with the prefix and ends with the suffix, both less their own slash. Where the prefix or the
  -- suffix had a slash, the entry is a directory listed with a slash, and where the prefix had one,
  -- the name is as long as the prefix.
  pub directory_list1_name-passed :
      (opts : DirectoryListOpts) (entry : Entry) (filename : List ℕ) (type : ℕ)
      → directory_list1_name fstatat opts entry ≡ some (filename, type)
      → (take (length opts.prefix) entry.name ≡ opts.prefix)
        × (drop (length entry.name - length opts.suffix) entry.name ≡ opts.suffix)
        × (type ≡ dirent_type2 fstatat entry.name opts.keep_symlinks entry.d_type)
        × (filename ≡ (
            if type == e_dir && opts.ret_append_slash
            then entry.name ++ (b'/' ∷ [])
            else entry.name))
        × (opts.prefix_has_slash || opts.suffix_has_slash ≡ true
            → type == e_dir && opts.ret_append_slash ≡ true)
        × (opts.prefix_has_slash ≡ true → length entry.name ≡ length opts.prefix)
  unfolding directory_list1_name
  directory_list1_name-passed opts entry filename type h = (
    starts opts entry.name kept,
    ends opts entry.name kept,
    same,
    rw same (shape (entry.name ++ (b'/' ∷ [])) entry.name filename found type slash split.0),
    (λ s. rw same (split.1 s)),
    fits opts entry.name kept,
  )
    where
      kept : ignored opts entry.name ≡ false
      kept = ground arith

      found : ℕ
      found = dirent_type2 fstatat entry.name opts.keep_symlinks entry.d_type

      same : type ≡ found
      same = ground arith

      slash : Bool
      slash = found == e_dir && opts.ret_append_slash

      split :
          (◌≡◌ {A = List ℕ × ℕ}
            (filename, type)
            (if slash then (entry.name ++ (b'/' ∷ []), found) else (entry.name, found)))
          × (opts.prefix_has_slash || opts.suffix_has_slash ≡ true → slash ≡ true)
      split =
          chosen (ignored opts entry.name) slash (opts.prefix_has_slash || opts.suffix_has_slash)
            (entry.name ++ (b'/' ∷ []), found) (entry.name, found) (filename, type) h
