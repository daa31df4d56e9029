-- ===== src/CommandLine.antt =====
-- main.c: the command line of schemesh. `argv` is the list behind the program's name, without its
-- final NULL; the strings that `strcmp` compares are native texts.
pub mod Main
pub mod Consistent
pub mod Options
mod Tests
use Prim.Native.String.{String, slice, len}
use text.Mathlib.Text.{starts_with, ◌==◌ as ◌same◌}
use schemesh.Base.{
  ℕ, zero, suc, ◌-◌, Bool, true, false, ◌&&◌, ◌||◌, not, Option, none, some, List, [], ◌∷◌, ◌++◌,
  leb, if◌then◌else◌,
}

-- The branches of `parse_command_line`, in its order.
pub data ParseWord : Type 0 where
  dashes take_boot_dir take_library_dir take_source help repl login version unknown file : ParseWord

unfoldable pub parse_word : String → ParseWord
parse_word arg =
    if arg same "--"
    then dashes
    else if arg same "--boot-dir"
    then take_boot_dir
    else if arg same "--library-dir"
    then take_library_dir
    else if arg same "-c"
        || arg same "--cmd"
        || arg same "--cmd-file"
        || arg same "-e"
        || arg same "--eval"
        || arg same "--eval-file"
        || arg same "--load-file"
    then take_source
    else if arg same "-h" || arg same "--help"
    then help
    else if arg same "-i" || arg same "--repl"
    then repl
    else if arg same "-l" || arg same "--login"
    then login
    else if arg same "--version"
    then version
    else if starts_with arg "-"
    then unknown
    else file

pub record Cmdline : Type 0 where
  pub boot_dir : Option String
  pub library_dir : Option String
  pub have_file_or_string : Bool
  pub force_repl : Bool

-- `struct cmdline cmd = {}`
abbrev pub no_options : Cmdline
no_options = record {
  boot_dir = none;
  library_dir = none;
  have_file_or_string = false;
  force_repl = false;
}

-- What is printed by `usage`, `display_version`, `unknown_option`, `missing_option_argument`.
pub data Output : Type 0 where
  usage : Output
  version_text : Output
  unrecognized : String → Output
  missing_argument : String → Output

-- The parse returns, or the process exits with a status.
pub data Parsed : Type 0 where
  parsed : Cmdline → List Output → Parsed
  exited : ℕ → List Output → Parsed

-- A branch that needs no argument: it leaves the loop, exits, or goes on with new options.
pub data Branch : Type 0 where
  leave : Cmdline → Branch
  exit : ℕ → Output → Branch
  continue : Cmdline → List Output → Branch

abbrev pub with_source : Cmdline → Cmdline
with_source cmd = record cmd { have_file_or_string = true }

unfoldable pub branch : ParseWord → String → Cmdline → Branch
branch dashes arg cmd = leave (with_source cmd)
branch take_boot_dir arg cmd = exit 1 (missing_argument arg)
branch take_library_dir arg cmd = exit 1 (missing_argument arg)
branch take_source arg cmd = exit 1 (missing_argument arg)
branch help arg cmd = exit 0 usage
branch repl arg cmd = continue (record cmd { force_repl = true }) []
branch login arg cmd = continue cmd []
branch version arg cmd = continue (with_source cmd) (version_text ∷ [])
branch unknown arg cmd = exit 1 (unrecognized arg)
branch file arg cmd = continue (with_source cmd) []

-- A branch that takes `arg2`, and is none without it.
unfoldable pub taken : ParseWord → String → Cmdline → Option Cmdline
taken take_boot_dir arg2 cmd = some (record cmd { boot_dir = some arg2 })
taken take_library_dir arg2 cmd = some (record cmd { library_dir = some arg2 })
taken take_source arg2 cmd = some (with_source cmd)
taken _ arg2 cmd = none

abbrev pub go_on : Branch → (Cmdline → List Output → Parsed) → List Output → Parsed
go_on (leave cmd) next out = parsed cmd out
go_on (exit status message) next out = exited status (out ++ (message ∷ []))
go_on (continue cmd more) next out = next cmd (out ++ more)

-- `out` is what has been printed.
unfoldable pub parse_loop : List String → Cmdline → List Output → Parsed
unfolding branch taken
parse_loop [] cmd out = parsed cmd out
parse_loop (arg ∷ []) cmd out = go_on (branch (parse_word arg) arg cmd) parsed out
parse_loop (arg ∷ arg2 ∷ rest) cmd out = elim (taken (parse_word arg) arg2 cmd) [
  | some cmd' ↦ parse_loop rest cmd' out
  | none ↦ go_on (branch (parse_word arg) arg cmd) (parse_loop (arg2 ∷ rest)) out
]

unfoldable pub parse_command_line : List String → Parsed
unfolding parse_loop
parse_command_line argv = parse_loop argv no_options []

pub data Language : Type 0 where
  shell scheme : Language

-- The calls of Scheme that `run_files_and_strings` makes.
pub data Action : Type 0 where
  eval_string : Language → String → Action
  load_file : Language → String → Action
  load_compiled : String → Action
  load_autodetect : String → Action

-- `load_file_type_autodetect`
unfoldable pub autodetect : String → Action
autodetect filename =
    let n = len filename in
    if leb 3 n && slice filename (n - 3) n same ".so"
    then load_compiled filename
    else load_autodetect filename

-- The branches of `run_files_and_strings` that take `arg2`: none is skipped, or an action.
pub data RunWord : Type 0 where
  end_of_options skip_two some_option a_file : RunWord
  act : (String → Action) → RunWord

abbrev pub other_word : String → RunWord
other_word arg = if starts_with arg "-" then some_option else a_file

unfoldable pub run_word : String → RunWord
run_word arg =
    if arg same "--"
    then end_of_options
    else if arg same "--boot-dir" || arg same "--library-dir"
    then skip_two
    else if arg same "-c" || arg same "--cmd"
    then act (eval_string shell)
    else if arg same "--cmd-file"
    then act (load_file shell)
    else if arg same "-e" || arg same "--eval"
    then act (eval_string scheme)
    else if arg same "--eval-file"
    then act (load_file scheme)
    else if arg same "--load-file"
    then act load_compiled
    else other_word arg

-- The last argument: without `arg2` the options that want one are some other option.
unfoldable pub last_action : String → List Action
last_action arg =
    if arg same "--" then [] else if starts_with arg "-" then [] else autodetect arg ∷ []

unfoldable pub files_loop : List String → List Action
files_loop [] = []
files_loop (arg ∷ rest) = autodetect arg ∷ files_loop rest

-- The actions in their order, as long as each of them returns.
unfoldable pub run_loop : List String → List Action
unfolding files_loop last_action
run_loop [] = []
run_loop (arg ∷ []) = last_action arg
run_loop (arg ∷ arg2 ∷ rest) = elim (run_word arg) [
  | end_of_options ↦ files_loop (arg2 ∷ rest)
  | skip_two ↦ run_loop rest
  | act f ↦ f arg2 ∷ run_loop rest
  | some_option ↦ run_loop (arg2 ∷ rest)
  | a_file ↦ autodetect arg ∷ run_loop (arg2 ∷ rest)
]

unfoldable pub run_files_and_strings : List String → List Action
unfolding run_loop
run_files_and_strings argv = run_loop argv
