-- ===== src/Shell.antt =====
-- shell/shell.c and eval.c: the environment, the libraries and the start of Chez Scheme, whose calls are
-- parameters, and the loop of shell/env.ss that reads the environment. A text has no final 0 here.
pub mod Environ
pub mod Libraries
mod Tests
use schemesh.Base.{
  ℕ, zero, suc, ◌+◌, ◌^◌, Bool, true, false, ◌&&◌, not, Option, none, some, List, [], ◌∷◌, ◌++◌,
  ltb, ◌==◌, if◌then◌else◌, length, get_elem?,
}
use schemesh.Base.Int.{ℤ, pos, eq_ℤ}
use schemesh.Base.Text.{codes}
use schemesh.Scheme.{Ptr, sfalse, strue, string, pair}
use schemesh.Strings.{sstring_utf8b}
use schemesh.Posix.{M, Kernel, Process, einval, call, return, ◌>>=◌}
use schemesh.Startup.{register_c_functions_posix}

-- `strchr(entry, '=')`: what stands in front of it, and behind it.
unfoldable pub split_at : ℕ → List ℕ → Option (List ℕ × List ℕ)
split_at c [] = none
split_at c (b ∷ bs) =
    let rest = split_at c bs in
    if b == c
    then some ([], bs)
    else elim rest [ none ↦ none | some (name, value) ↦ some (b ∷ name, value) ]

-- A length that a fixnum of 61 bits holds, and not 0.
abbrev pub is_namelen : ℕ → Bool
is_namelen n = ltb 0 n && ltb n (2 ^ 60)

module _ (smake_string : ℤ → Option (List ℕ)) where
  -- The pair of two strings; none where making one of them raised a condition.
  abbrev pub pair_of : List ℕ → List ℕ → Option Ptr
  pair_of name value = elim (sstring_utf8b smake_string name (some (length name))) [
    | none ↦ none
    | some key ↦ elim (sstring_utf8b smake_string value none) [
      | none ↦ none
      | some val ↦ some (pair (string key) (string val))
    ]
  ]

  unfoldable pub environ_entry : List ℕ → Option Ptr
  unfolding split_at
  environ_entry entry = elim (split_at b'=' entry) [
    | none ↦ some sfalse
    | some (name, value) ↦ if is_namelen (length name) then pair_of name value else some sfalse
  ]

  unfoldable pub environ_ref : List (List ℕ) → ℕ → Option Ptr
  unfolding environ_entry
  environ_ref environ i = elim (get_elem? environ i) [
    | none ↦ some sfalse
    | some entry ↦ environ_entry entry
  ]

  -- `c-environ->sh-global-env`: the pairs from position i on, up to the first result that is none, with
  -- fuel for the rounds. The outer `none` is fuel that does not suffice, or a raised condition.
  unfoldable pub environ_loop : ℕ → List (List ℕ) → ℕ → Option (List Ptr)
  unfolding environ_ref
  environ_loop zero environ i = none
  environ_loop (suc rounds) environ i = elim (environ_ref environ i) [
    | none ↦ none
    | some (pair key val) ↦ elim (environ_loop rounds environ (suc i)) [
      | none ↦ none
      | some rest ↦ some (pair key val ∷ rest)
    ]
    | some _ ↦ some []
  ]

-- `try_load` is the Scheme procedure that loads the library from a directory, and returns #t, or #f where
-- that raises. The result, and the directories that were tried.
abbrev pub is_strue : Ptr → Bool
is_strue strue = true
is_strue _ = false

-- `if (ret != Strue) ret = call_try_load(…)`
unfoldable pub try_next : (List ℕ → Ptr) → List ℕ → Ptr × List (List ℕ) → Ptr × List (List ℕ)
try_next try_load dir (ret, tried) =
    if not (is_strue ret) then (try_load dir, tried ++ (dir ∷ [])) else (ret, tried)

abbrev pub usr_local : List ℕ
usr_local = codes "/usr/local/lib/schemesh"

abbrev pub usr : List ℕ
usr = codes "/usr/lib/schemesh"

-- SCHEMESH_DIR is `none` where it is not defined.
unfoldable pub system_dirs : (List ℕ → Ptr) → Option (List ℕ) → Ptr × List (List ℕ)
unfolding try_next
system_dirs try_load schemesh_dir =
    let first : Ptr × List (List ℕ) = elim schemesh_dir [
      | none ↦ (sfalse, [])
      | some dir ↦ (try_load dir, dir ∷ [])
    ] in
    try_next try_load usr (try_next try_load usr_local first)

unfoldable pub load_libraries :
    (List ℕ → Ptr) → Option (List ℕ) → Option (List ℕ) → ℕ × List (List ℕ)
unfolding system_dirs
load_libraries try_load schemesh_dir override_library_dir =
    let (ret, tried) : Ptr × List (List ℕ) = elim override_library_dir [
      | some dir ↦ (try_load dir, dir ∷ [])
      | none ↦ system_dirs try_load schemesh_dir
    ] in
    (if is_strue ret then 0 else einval, tried)

-- What `schemesh_init` calls.
pub data InitCall : Type 0 where
  -- sigprocmask(SIG_SETMASK) with no signal
  unblock_all scheme_init build_heap : InitCall
  register_boot_file : List ℕ → InitCall

unfoldable pub boot_files : List ℕ → List InitCall
boot_files dir =
    register_boot_file (dir ++ codes "/petite.boot")
    ∷ register_boot_file (dir ++ codes "/scheme.boot")
    ∷ []

-- `malloc` says for a size whether there is memory.
unfoldable pub init : (ℕ → Bool) → List ℕ → Option (List ℕ) → List InitCall
unfolding boot_files
init malloc chez_scheme_dir override_boot_dir =
    let dir : List ℕ = elim override_boot_dir [
      | none ↦ chez_scheme_dir
      | some dir ↦ if malloc (length dir + 13) then dir else chez_scheme_dir
    ] in
    unblock_all ∷ scheme_init ∷ (boot_files dir ++ (build_heap ∷ []))

module _ {W : Type 0} (kernel : Kernel W) (strerror : ℕ → List ℕ) where
  -- `schemesh_register_c_functions`: what containers/ registers cannot fail.
  unfoldable pub register_c_functions : M W ℤ
  register_c_functions = register_c_functions_posix kernel strerror

-- Chez Scheme: the value of a global symbol, and calls, which may raise.
pub record Chez (V : Type 0) : Type 0 where
  pub top_level_value : List ℕ → Option V
  pub apply : V → List V → Option V
  pub string_value : List ℕ → Option V

module _ {V : Type 0} (chez : Chez V) where
  unfoldable pub call_global : List ℕ → List V → Option V
  call_global symbol_name args = elim (chez.top_level_value symbol_name) [
    | none ↦ none
    | some procedure ↦ chez.apply procedure args
  ]

  unfoldable pub call0 : List ℕ → Option V
  unfolding call_global
  call0 symbol_name = call_global symbol_name []

  unfoldable pub call1 : List ℕ → V → Option V
  unfolding call_global
  call1 symbol_name arg = call_global symbol_name (arg ∷ [])

  unfoldable pub call2 : List ℕ → V → V → Option V
  unfolding call_global
  call2 symbol_name arg1 arg2 = call_global symbol_name (arg1 ∷ arg2 ∷ [])

  unfoldable pub call3 : List ℕ → V → V → V → Option V
  unfolding call_global
  call3 symbol_name arg1 arg2 arg3 = call_global symbol_name (arg1 ∷ arg2 ∷ arg3 ∷ [])

  unfoldable pub eval : List ℕ → Option V
  unfolding call1
  eval str = elim (chez.string_value str) [
    | none ↦ none
    | some text ↦ elim (call1 (codes "open-string-input-port") text) [
      | none ↦ none
      | some port ↦ elim (call1 (codes "read") port) [
        | none ↦ none
        | some form ↦ call1 (codes "eval") form
      ]
    ]
  ]

  -- `schemesh_import_all_libraries`
  unfoldable pub import_all_libraries : Option V
  unfolding eval
  import_all_libraries = eval (codes "(import (schemesh))" ++ (10 ∷ []))
