-- ===== src/CommandLine/Options.antt =====
-- What the options that were parsed say about the actions that are run.
use Prim.Native.String.{String}
use schemesh.Base.{◌≡◌, true, false, some, List, [], ◌∷◌, ◌++◌, arith}
use schemesh.CommandLine.{
  Cmdline, Output, version_text, parsed, parse_loop, parse_command_line, run_loop,
  run_files_and_strings, no_options,
}
use schemesh.CommandLine.Consistent.{words_agree, last_action_lem}

-- Without a source the second pass does nothing.
parse_loop-silent :
    (argv : List String) (start cmd : Cmdline) (before out : List Output)
    → parse_loop argv start before ≡ parsed cmd out
    → cmd.have_file_or_string ≡ false
    → (start.have_file_or_string ≡ false) × (run_loop argv ≡ [])
unfolding parse_loop run_loop
parse_loop-silent [] start cmd before out e h = ground arith
parse_loop-silent (arg ∷ []) start cmd before out e h =
    ground (arith, words_agree arg, last_action_lem arg)
parse_loop-silent (arg ∷ arg2 ∷ rest) start cmd before out e h = ground (
  arith,
  words_agree arg,
  parse_loop-silent (arg2 ∷ rest) start cmd before out,
  parse_loop-silent (arg2 ∷ rest) (record start { force_repl = true }) cmd (before ++ []) out,
  parse_loop-silent (arg2 ∷ rest) start cmd (before ++ []) out,
  parse_loop-silent (arg2 ∷ rest) (record start { have_file_or_string = true }) cmd
      (before ++ (version_text ∷ [])) out,
  parse_loop-silent (arg2 ∷ rest) (record start { have_file_or_string = true }) cmd (before ++ [])
      out,
  parse_loop-silent rest (record start { boot_dir = some arg2 }) cmd before out,
  parse_loop-silent rest (record start { library_dir = some arg2 }) cmd before out,
  parse_loop-silent rest (record start { have_file_or_string = true }) cmd before out,
)

-- If the parse found no file, no string and no --version, the second pass runs nothing.
pub parse_command_line_silent :
    (argv : List String) (cmd : Cmdline) (out : List Output)
    → parse_command_line argv ≡ parsed cmd out
    → cmd.have_file_or_string ≡ false
    → run_files_and_strings argv ≡ []
unfolding parse_command_line run_files_and_strings
parse_command_line_silent argv cmd out e h = (parse_loop-silent argv no_options cmd [] out e h).1
