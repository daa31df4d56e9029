-- ===== src/Shell/Tests.antt =====
-- shell/shell.c: runs, and the theorems at concrete inputs.
use schemesh.Base.{
  ℕ, ◌≡◌, refl, Option, some, none, List, [], ◌∷◌, ◌++◌, replicate, false, if◌then◌else◌,
}
use schemesh.Base.Int.{ℤ, pos, negsuc}
use schemesh.Base.Text.{codes}
use schemesh.Scheme.{Ptr, sfalse, strue, pair, string}
use schemesh.Posix.{einval}
use schemesh.Strings.{sstring_utf8b, bytes_utf8b_to_string_length, bytes_utf8b_to_string_append}
use schemesh.Utf8b.{utf8b_to_codepoint_length, utf8b_to_codepoint}
use schemesh.CommandLine.Main.{Script}
use schemesh.Shell.{
  environ_entry, environ_loop, load_libraries, init, register_boot_file, unblock_all, scheme_init,
  build_heap, usr_local, usr,
}
use schemesh.Shell.Environ.{environ_loop-stops}
use schemesh.Shell.Libraries.{candidates, any_loads, up_to_loaded, load_libraries_lem}

abbrev zeros : ℤ → Option (List ℕ)
zeros (pos n) = some (replicate n 0)
zeros (negsuc n) = none

abbrev key_value : Ptr
key_value = pair (string (codes "A")) (string (codes "1"))

one_entry : environ_entry zeros (codes "A=1") ≡ some key_value
unfolding environ_entry sstring_utf8b bytes_utf8b_to_string_length bytes_utf8b_to_string_append
    utf8b_to_codepoint_length utf8b_to_codepoint
one_entry = refl

-- Of "A=1", "B" and "C=2" only the first is read.
environ_loop-stops_example :
    environ_loop zeros 3 ((codes "A=1" ∷ []) ++ (codes "B" ∷ codes "C=2" ∷ [])) 0
    ≡ some (key_value ∷ [])
environ_loop-stops_example =
    environ_loop-stops zeros 1 (codes "A=1" ∷ []) (codes "B") (codes "C=2" ∷ []) (key_value ∷ [])
      (one_entry, tt) (refl, tt)

-- Nothing loads.
abbrev never : List ℕ → Ptr
never dir = sfalse

load_libraries_lem_example : load_libraries never none none ≡ (
  if any_loads never (candidates none none) then 0 else einval,
  up_to_loaded never (candidates none none),
)
load_libraries_lem_example = load_libraries_lem never none none

abbrev lost : Script
lost = record {
  init_raises = false;
  register_err = pos 0;
  load_err = pos einval;
  import_raises = false;
  raises = λ a. false;
  rounds = [];
  quit_raises = false;
}

nowhere : load_libraries never none none ≡ (einval, usr_local ∷ usr ∷ [])
unfolding load_libraries
nowhere = refl

boots :
    init (λ n. false) (codes "/c") (some (codes "/b"))
    ≡ unblock_all
      ∷ scheme_init
      ∷ register_boot_file (codes "/c/petite.boot")
      ∷ register_boot_file (codes "/c/scheme.boot")
      ∷ build_heap
      ∷ []
unfolding init
boots = refl

-- A directory that is configured, and loads, is the only one that is tried.
configured : load_libraries (λ dir. strue) (some (codes "/d")) none ≡ (0, codes "/d" ∷ [])
unfolding load_libraries
configured = refl
