-- ===== src/Directory/Tests.antt =====
-- posix/posix.c, directories: runs, and the theorems at concrete inputs.
use schemesh.Base.{ℕ, ◌≡◌, refl, true, false, Option, some, none, List, [], ◌∷◌, ◌++◌}
use schemesh.Base.Int.{ℤ, pos}
use schemesh.Base.Text.{codes}
use schemesh.Scheme.{bytevector, pair, fixnum, snil}
use schemesh.Bytevector.{memcmp}
use schemesh.Directory.{Entry, DirectoryListOpts, directory_list}

abbrev no_stat : List ℕ → Option ℕ
no_stat name = none

abbrev no_string : ℤ → Option (List ℕ)
no_string n = none

-- The directory "src", the file "src.c" and the link "a.c".
abbrev entries : List Entry
entries =
    record { name = codes "src"; d_type = 4 }
    ∷ record { name = codes "src.c"; d_type = 8 }
    ∷ record { name = codes "a.c"; d_type = 10 }
    ∷ []

-- The names that begin with "s", as bytes with their types, directories with a slash.
list_prefix :
    directory_list no_stat no_string
      (λ dirpath. some entries)
      0
      (bytevector (codes "." ++ (0 ∷ [])))
      (bytevector (codes "s"))
      (bytevector [])
      14
    ≡ some (
        pair
          (pair (bytevector (codes "src.c")) (fixnum (pos 5)))
          (pair (pair (bytevector (codes "src/")) (fixnum (pos 3))) snil))
unfolding directory_list memcmp
list_prefix = refl

abbrev opts : DirectoryListOpts
opts = record {
  prefix = codes "src";
  suffix = codes "c";
  prefix_has_slash = true;
  suffix_has_slash = false;
  keep_symlinks = false;
  ret_append_slash = true;
  ret_bytes = true;
  ret_types = false;
}

abbrev entry : Entry
entry = record { name = codes "src"; d_type = 4 }
