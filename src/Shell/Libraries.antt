-- ===== src/Shell/Libraries.antt =====
-- Where the library is searched, and what `main` returns if it is nowhere.
use schemesh.Base.{
  ℕ, ◌≡◌, refl, Bool, false, ◌||◌, Option, none, some, List, [], ◌∷◌, if◌then◌else◌, arith,
  Bool-cases, inl, inr,
}
use schemesh.Base.Int.{pos}
use schemesh.Scheme.{Ptr}
use schemesh.Posix.{einval}
use schemesh.CommandLine.{Cmdline, Action}
use schemesh.CommandLine.Main.{Script, run_main}
use schemesh.Shell.{is_strue, try_next, usr_local, usr, system_dirs, load_libraries}

-- The directories in the order in which they are tried.
abbrev pub candidates : Option (List ℕ) → Option (List ℕ) → List (List ℕ)
candidates schemesh_dir (some dir) = dir ∷ []
candidates (some dir) none = dir ∷ usr_local ∷ usr ∷ []
candidates none none = usr_local ∷ usr ∷ []

abbrev pub any_loads : (List ℕ → Ptr) → List (List ℕ) → Bool
any_loads try_load [] = false
any_loads try_load (dir ∷ dirs) = is_strue (try_load dir) || any_loads try_load dirs

-- The directories up to the first one that loads, with it.
abbrev pub up_to_loaded : (List ℕ → Ptr) → List (List ℕ) → List (List ℕ)
up_to_loaded try_load [] = []
up_to_loaded try_load (dir ∷ dirs) =
    dir ∷ (if is_strue (try_load dir) then [] else up_to_loaded try_load dirs)

-- The library is taken from the first directory from which it loads: an overriding one alone, or the
-- configured one and the two of the system. No directory behind it is tried. The result is 0 if there
-- is such a directory, and EINVAL if there is none.
pub load_libraries_lem :
    (try_load : List ℕ → Ptr) (schemesh_dir override : Option (List ℕ))
    → let dirs = candidates schemesh_dir override in
      load_libraries try_load schemesh_dir override
      ≡ (if any_loads try_load dirs then 0 else einval, up_to_loaded try_load dirs)
unfolding load_libraries system_dirs try_next
load_libraries_lem try_load schemesh_dir (some dir) = elim (Bool-cases (is_strue (try_load dir))) [
  | inl a ↦ rw (load_libraries, a) refl
  | inr a ↦ rw (load_libraries, a) refl
]
load_libraries_lem try_load (some dir) none = elim (Bool-cases (is_strue (try_load dir))) [
  | inl a ↦ rw (load_libraries, a, a, a) refl
  | inr a ↦ elim (Bool-cases (is_strue (try_load usr_local))) [
    | inl b ↦ rw (load_libraries, a, b, b) refl
    | inr b ↦ elim (Bool-cases (is_strue (try_load usr))) [
      | inl c ↦ rw (load_libraries, a, b, c) refl
      | inr c ↦ rw (load_libraries, a, b, c) refl
    ]
  ]
]
load_libraries_lem try_load none none = elim (Bool-cases (is_strue (try_load usr_local))) [
  | inl b ↦ rw (load_libraries, b, b) refl
  | inr b ↦ elim (Bool-cases (is_strue (try_load usr))) [
    | inl c ↦ rw (load_libraries, b, c) refl
    | inr c ↦ rw (load_libraries, b, c) refl
  ]
]

-- Where Chez Scheme starts, the C functions are registered and quitting raises nothing: if the library
-- loads from none of the directories, `main` runs no file, expression or repl and returns EINVAL.
pub run_main-load_libraries :
    (try_load : List ℕ → Ptr) (schemesh_dir override : Option (List ℕ)) (s : Script) (cmd : Cmdline)
    (actions : List Action)
    → any_loads try_load (candidates schemesh_dir override) ≡ false
    → s.init_raises ≡ false
    → s.register_err ≡ pos 0
    → s.quit_raises ≡ false
    → s.load_err ≡ pos (load_libraries try_load schemesh_dir override).0
    → run_main s cmd actions ≡ some (pos einval)
unfolding run_main
run_main-load_libraries try_load schemesh_dir override s cmd actions h i r q l =
    let e = load_libraries_lem try_load schemesh_dir override in ground arith
