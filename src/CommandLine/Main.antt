-- ===== src/CommandLine/Main.antt =====
-- main.c: `main`, its jumps and its exit status. Chez Scheme and the rest of schemesh answer as a
-- script says: what each call returns, or that it raised an exception.
use Prim.Native.String.{String}
use schemesh.Base.{
  Bool, true, false, ◌&&◌, not, Option, none, some, List, [], ◌∷◌, if◌then◌else◌, ◌≡◌, ◌↔◌, refl,
  ◌++◌, arith,
}
use schemesh.Base.Int.{ℤ, pos, negsuc, eq_ℤ}
use schemesh.CommandLine.{
  Cmdline, Action, Output, parsed, exited, parse_command_line, run_files_and_strings,
}

-- One round of the repl: an exception, or its result (none if it is no fixnum) and the answer of
-- "repl-restart?".
pub data ReplRound : Type 0 where
  raised : ReplRound
  returned : Option ℤ → Bool → ReplRound

pub record Script : Type 0 where
  pub init_raises : Bool
  pub register_err : ℤ
  pub load_err : ℤ
  pub import_raises : Bool
  pub raises : Action → Bool
  pub rounds : List ReplRound
  pub quit_raises : Bool

-- `none`: the script has no more rounds, and the repl still runs.
unfoldable pub repl_loop : List ReplRound → Option ℤ
repl_loop [] = none
repl_loop (raised ∷ rounds) = repl_loop rounds
repl_loop (returned ret restart ∷ rounds) =
    let rest = repl_loop rounds in
    let err : ℤ = elim ret [ none ↦ negsuc 0 | some n ↦ n ] in if restart then rest else some err

unfoldable pub any_raises : (Action → Bool) → List Action → Bool
any_raises raises [] = false
any_raises raises (a ∷ actions) =
    let rest = any_raises raises actions in if raises a then true else rest

-- `finish:`, where an exception in `schemesh_quit` makes `main` return 2.
abbrev finish : Script → Option ℤ → Option ℤ
finish s none = none
finish s (some err) = if s.quit_raises then some (pos 2) else some err

-- The exit status behind a successful parse; none while the repl runs.
unfoldable pub run_main : Script → Cmdline → List Action → Option ℤ
unfolding repl_loop any_raises
run_main s cmd actions =
    if s.init_raises
    then finish s (some (pos 1))
    else if not (eq_ℤ s.register_err (pos 0))
    then finish s (some s.register_err)
    else if not (eq_ℤ s.load_err (pos 0))
    then finish s (some s.load_err)
    else if s.import_raises
    then finish s (some (pos 1))
    else if cmd.have_file_or_string && any_raises s.raises actions
    then finish s (some (pos 1))
    else if not cmd.force_repl && cmd.have_file_or_string
    then finish s (some (pos 0))
    else finish s (repl_loop s.rounds)

unfoldable pub main : Script → List String → Option ℤ × List Output
unfolding run_main
main s argv = elim (parse_command_line argv) [
  | exited status out ↦ (some (pos status), out)
  | parsed cmd out ↦ (run_main s cmd (run_files_and_strings argv), out)
]

-- In batch mode, with a source and without --repl, the repl is never started, and the exit status is 0
-- exactly when nothing failed: no exception, no error code, and a quit that returned.
pub run_main_batch :
    (s : Script) (cmd : Cmdline) (actions : List Action)
    → cmd.have_file_or_string ≡ true
    → cmd.force_repl ≡ false
    → ((rounds : List ReplRound)
        → run_main (record s { rounds = rounds }) cmd actions ≡ run_main s cmd actions)
      × ((run_main s cmd actions ≡ some (pos 0)) ↔ (
          (s.init_raises ≡ false)
          × (s.register_err ≡ pos 0)
          × (s.load_err ≡ pos 0)
          × (s.import_raises ≡ false)
          × (any_raises s.raises actions ≡ false)
          × (s.quit_raises ≡ false)))
unfolding run_main
run_main_batch s cmd actions h k = (λ rounds. ground arith, ground arith)

-- An exception in the repl does not end it: `main` starts it again.
pub repl_loop_raised :
    (before after : List ReplRound)
    → repl_loop (before ++ (raised ∷ after)) ≡ repl_loop (before ++ after)
unfolding repl_loop
repl_loop_raised [] after = refl
repl_loop_raised (raised ∷ before) after = repl_loop_raised before after
repl_loop_raised (returned ret restart ∷ before) after = rw (repl_loop_raised before after)
