-- ===== src/CommandLine/Tests.antt =====
-- main.c: runs on command lines, and the theorems at concrete inputs.
use schemesh.Base.{◌≡◌, refl, true, false, List, [], ◌∷◌, some, none, ◌↔◌}
use schemesh.Base.Int.{pos}
use schemesh.CommandLine.{
  parse_command_line, run_files_and_strings, parse_word, run_word, parsed, autodetect,
  load_compiled, eval_string, load_file, shell, version_text, load_autodetect, no_options, Action,
  Cmdline, exited, missing_argument,
}
use schemesh.CommandLine.Main.{
  Script, ReplRound, raised, returned, run_main, any_raises, run_main_batch, main,
}

parse_version :
    parse_command_line ("--version" ∷ "-c" ∷ "ls" ∷ "-i" ∷ [])
    ≡ parsed
        (record {
          boot_dir = none;
          library_dir = none;
          have_file_or_string = true;
          force_repl = true;
        })
        (version_text ∷ [])
unfolding parse_command_line parse_word
parse_version = refl

parse_missing :
    parse_command_line ("--version" ∷ "-c" ∷ [])
    ≡ exited 1 (version_text ∷ missing_argument "-c" ∷ [])
unfolding parse_command_line parse_word
parse_missing = refl

run_sources :
    run_files_and_strings ("--version" ∷ "-c" ∷ "ls" ∷ "a.so" ∷ "--" ∷ "-x" ∷ [])
    ≡ eval_string shell "ls" ∷ load_compiled "a.so" ∷ load_autodetect "-x" ∷ []
unfolding run_files_and_strings run_word autodetect
run_sources = refl

-- A session in which only scheme files raise exceptions, and the repl is restarted once.
abbrev session : Script
session = record {
  init_raises = false;
  register_err = pos 0;
  load_err = pos 0;
  import_raises = false;
  raises = λ a. (elim a [
    | load_file lang filename ↦ true
    | eval_string lang text ↦ false
    | load_compiled filename ↦ false
    | load_autodetect filename ↦ false
  ]);
  rounds = raised ∷ returned (some (pos 7)) true ∷ returned (some (pos 3)) false ∷ [];
  quit_raises = false;
}

interactive : main session [] ≡ (some (pos 3), [])
unfolding main parse_command_line run_files_and_strings
interactive = refl

failing_file : main session ("--eval-file" ∷ "f" ∷ []) ≡ (some (pos 1), [])
unfolding main parse_command_line run_files_and_strings parse_word run_word
failing_file = refl

parse_repl :
    parse_command_line ("-i" ∷ "--login" ∷ []) ≡ parsed (record no_options { force_repl = true }) []
unfolding parse_command_line parse_word
parse_repl = refl

abbrev batch : Cmdline
batch = record no_options { have_file_or_string = true }

abbrev one_command : List Action
one_command = eval_string shell "ls" ∷ []

run_main_batch_example :
    ((rounds : List ReplRound)
      → run_main (record session { rounds = rounds }) batch one_command
        ≡ run_main session batch one_command)
    × ((run_main session batch one_command ≡ some (pos 0)) ↔ (
        (session.init_raises ≡ false)
        × (session.register_err ≡ pos 0)
        × (session.load_err ≡ pos 0)
        × (session.import_raises ≡ false)
        × (any_raises session.raises one_command ≡ false)
        × (session.quit_raises ≡ false)))
run_main_batch_example = run_main_batch session batch one_command refl refl
