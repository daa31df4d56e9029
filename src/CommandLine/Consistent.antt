-- ===== src/CommandLine/Consistent.antt =====
-- The two passes over the arguments, `parse_command_line` and `run_files_and_strings`, agree.
use Prim.Native.String.{String}
use text.Mathlib.Text.{starts_with, ◌==◌ as ◌same◌}
use text.Mathlib.TextEquality.{eq_iff}
use schemesh.Base.{◌≡◌, refl, Bool, true, false, ◌||◌, List, [], ◌∷◌, arith, if◌then◌else◌}
use schemesh.CommandLine.{
  ParseWord, dashes, take_boot_dir, take_library_dir, take_source, help, repl, login, version,
  unknown, file, RunWord, end_of_options, skip_two, some_option, a_file, act, Action, parse_word,
  run_word, eval_string, load_file, load_compiled, shell, scheme, last_action, autodetect,
}

-- The words of the second pass that go with each word of the first.
abbrev pub agree : ParseWord → RunWord → Bool
agree dashes end_of_options = true
agree take_boot_dir skip_two = true
agree take_library_dir skip_two = true
agree take_source (act f) = true
agree file a_file = true
agree help some_option = true
agree repl some_option = true
agree login some_option = true
agree version some_option = true
agree unknown some_option = true
agree _ _ = false

dashed :
    (arg literal : String)
    → starts_with literal "-" ≡ true
    → arg same literal ≡ true
    → starts_with arg "-" ≡ true
dashed arg literal h e = rw ((eq_iff arg literal).0 e) h

-- The two chains of tests over the answers of the tests alone. `h` to `v` are the options that take no
-- argument, and all begin with a dash.
chains_agree :
    (end boot lib c cmd cmd_file e eval eval_file load h help_ i repl_ l login_ v d : Bool)
    → (h ≡ true → d ≡ true)
    → (help_ ≡ true → d ≡ true)
    → (i ≡ true → d ≡ true)
    → (repl_ ≡ true → d ≡ true)
    → (l ≡ true → d ≡ true)
    → (login_ ≡ true → d ≡ true)
    → (v ≡ true → d ≡ true)
    → agree
        (if end
          then dashes
          else if boot
          then take_boot_dir
          else if lib
          then take_library_dir
          else if c || cmd || cmd_file || e || eval || eval_file || load
          then take_source
          else if h || help_
          then help
          else if i || repl_
          then repl
          else if l || login_
          then login
          else if v
          then version
          else if d
          then unknown
          else file)
        (if end
          then end_of_options
          else if boot || lib
          then skip_two
          else if c || cmd
          then act (eval_string shell)
          else if cmd_file
          then act (load_file shell)
          else if e || eval
          then act (eval_string scheme)
          else if eval_file
          then act (load_file scheme)
          else if load
          then act load_compiled
          else if d
          then some_option
          else a_file)
      ≡ true
chains_agree end boot lib c cmd cmd_file e eval eval_file load h help_ i repl_ l login_ v d p q r s
      t u w =
    ground arith

-- Each argument is the same kind of word for both passes: the end of the options, an option that
-- takes an argument, one that takes none, or a file.
pub words_agree : (arg : String) → agree (parse_word arg) (run_word arg) ≡ true
unfolding parse_word run_word
words_agree arg =
    chains_agree _ _ _ (arg same "-c") (arg same "--cmd") (arg same "--cmd-file") (arg same "-e")
      (arg same "--eval") (arg same "--eval-file") (arg same "--load-file") _ _ _ _ _ _ _ _
      (dashed arg "-h" refl) (dashed arg "--help" refl) (dashed arg "-i" refl)
      (dashed arg "--repl" refl) (dashed arg "-l" refl) (dashed arg "--login" refl)
      (dashed arg "--version" refl)

abbrev pub only_file : RunWord → Action → List Action
only_file a_file action = action ∷ []
only_file _ action = []

last_chain :
    (end boot lib c cmd cmd_file e eval eval_file load d : Bool) (action : Action)
    → (boot ≡ true → d ≡ true)
    → (lib ≡ true → d ≡ true)
    → (c ≡ true → d ≡ true)
    → (cmd ≡ true → d ≡ true)
    → (cmd_file ≡ true → d ≡ true)
    → (e ≡ true → d ≡ true)
    → (eval ≡ true → d ≡ true)
    → (eval_file ≡ true → d ≡ true)
    → (load ≡ true → d ≡ true)
    → (if end then [] else if d then [] else action ∷ [])
      ≡ only_file
          (if end
            then end_of_options
            else if boot || lib
            then skip_two
            else if c || cmd
            then act (eval_string shell)
            else if cmd_file
            then act (load_file shell)
            else if e || eval
            then act (eval_string scheme)
            else if eval_file
            then act (load_file scheme)
            else if load
            then act load_compiled
            else if d
            then some_option
            else a_file)
          action
last_chain end boot lib c cmd cmd_file e eval eval_file load d action p q r s t u v w x =
    ground arith

-- The last argument is run only if it is a file: an option that lacks its argument is skipped.
pub last_action_lem : (arg : String) → last_action arg ≡ only_file (run_word arg) (autodetect arg)
unfolding last_action run_word
last_action_lem arg =
    last_chain (arg same "--") _ _ (arg same "-c") (arg same "--cmd") _ (arg same "-e")
      (arg same "--eval") _ _ _ (autodetect arg) (dashed arg "--boot-dir" refl)
      (dashed arg "--library-dir" refl) (dashed arg "-c" refl) (dashed arg "--cmd" refl)
      (dashed arg "--cmd-file" refl) (dashed arg "-e" refl) (dashed arg "--eval" refl)
      (dashed arg "--eval-file" refl) (dashed arg "--load-file" refl)
