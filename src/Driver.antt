-- ===== src/Driver.antt =====
-- test/test.c: the program that compiles the library and runs the tests. What Scheme answers is a
-- script; the messages of compile_libraries are left out.
pub mod Counting
pub mod Status
mod Tests
use schemesh.Base.{
  ℕ, suc, ◌+◌, ◌-◌, ◌%◌, ◌^◌, Bool, not, Option, none, some, List, [], ◌∷◌, ◌==◌, ◌&&◌,
  if◌then◌else◌,
}
use schemesh.Base.Int.{ℤ, pos, negsuc, eq_ℤ}
use schemesh.Base.Text.{codes}
use schemesh.Scheme.{Ptr, pair, fixnum}
use schemesh.Posix.{M, Kernel, Process, chdir, write, call, einval, return, is_neg, ◌>>=◌, ◌>>◌}
use schemesh.Startup.{quit}
use schemesh.Shell.{is_strue, register_c_functions, load_libraries}

-- `run_n` and `failed_n`, unsigned long.
pub record Counters : Type 0 where
  pub run_n : ℕ
  pub failed_n : ℕ

abbrev pub none_run : Counters
none_run = record { run_n = 0; failed_n = 0 }

-- An iptr as an unsigned long, and added to one.
abbrev pub to_word : ℤ → ℕ
to_word (pos i) = i % 2 ^ 64
to_word (negsuc i) = 2 ^ 64 - suc i % 2 ^ 64

unfoldable pub add_word : ℕ → ℤ → ℕ
add_word n i = (n + to_word i) % 2 ^ 64

-- `run_scheme_tests`, where Scheme answered `ret`
unfoldable pub run_scheme_tests : Ptr → Counters → Counters
unfolding add_word
run_scheme_tests (pair (fixnum run) (fixnum failed)) c = record {
  run_n = add_word c.run_n run;
  failed_n = add_word c.failed_n failed;
}
run_scheme_tests _ c = record {
  run_n = add_word c.run_n (pos 1);
  failed_n = add_word c.failed_n (pos 1);
}

-- The last line that `run_all_tests` prints.
pub data Report : Type 0 where
  all_passed : ℕ → Report
  some_failed : ℕ → ℕ → Report

abbrev pub test_files : List (List ℕ)
test_files =
    codes "test/data0.ss"
    ∷ codes "test/data1.ss"
    ∷ codes "test/data2.ss"
    ∷ codes "test/data3.ss"
    ∷ []

-- `run_tests` is the Scheme procedure; `none` is an exception in it.
unfoldable pub run_files : (List ℕ → Option Ptr) → List (List ℕ) → Counters → Option Counters
unfolding run_scheme_tests
run_files run_tests [] c = some c
run_files run_tests (file ∷ files) c = elim (run_tests file) [
  | none ↦ none
  | some ret ↦ run_files run_tests files (run_scheme_tests ret c)
]

abbrev pub report : Counters → ℕ × Report
report c = if c.failed_n == 0 then (0, all_passed c.run_n) else (1, some_failed c.failed_n c.run_n)

-- Scheme's side of the run: which calls raise, and what the others return.
pub record Scheme : Type 0 where
  pub init_raises : Bool
  -- the value of the form that compiles the library; none where it raises
  pub compile : Option Ptr
  pub try_load : List ℕ → Ptr
  pub import_raises : Bool
  -- loading test/test.ss and importing its library
  pub load_raises : Bool
  pub run_tests : List ℕ → Option Ptr
  pub quit_raises : Bool

abbrev pub reported : Option Counters → Option (ℕ × Report)
reported none = none
reported (some c) = some (report c)

unfoldable pub run_all_tests : Scheme → Option (ℕ × Report)
unfolding run_files
run_all_tests s =
    if s.load_raises then none else reported (run_files s.run_tests test_files none_run)

module _ {W : Type 0} (kernel : Kernel W) (strerror : ℕ → List ℕ)
    (scheme_deinit : M W (Unit {0})) where
  -- The status with which the program exits.
  unfoldable pub handle_scheme_exception : M W ℕ
  handle_scheme_exception = do
    call kernel (write (pos 1) (codes "schemesh_test failed: exception evaluating Scheme code!\n"))
    return 1

  -- errno, and not -errno; none is an exception in Scheme.
  unfoldable pub compile_libraries : Option Ptr → Option (List ℕ) → M W (Option ℕ)
  compile_libraries compile none p = (some einval, p)
  compile_libraries compile (some source_dir) p =
      let (err, q) = call kernel (chdir source_dir) p in
      if not (eq_ℤ err (pos 0))
      then (some q.errno, q)
      else (elim compile [ none ↦ none | some ret ↦ some (if is_strue ret then 0 else einval) ], q)

  unfoldable pub finish : Scheme → M W ℕ
  unfolding handle_scheme_exception
  finish s = do
    quit kernel strerror scheme_deinit
    if s.quit_raises then handle_scheme_exception else return 0

  -- What follows `run_all_tests`, and `compile_libraries`.
  abbrev pub after_tests : Scheme → Option (ℕ × Report) → M W ℕ
  after_tests s none = handle_scheme_exception
  after_tests s (some result) = finish s

  unfoldable pub import_and_test : Scheme → M W ℕ
  unfolding finish run_all_tests handle_scheme_exception
  import_and_test s =
      if s.import_raises then handle_scheme_exception else after_tests s (run_all_tests s)

  unfoldable pub load_and_test : Scheme → M W ℕ
  unfolding import_and_test load_libraries
  load_and_test s =
      if (load_libraries s.try_load none (some (codes "."))).0 == 0
      then import_and_test s
      else finish s

  abbrev pub after_compile : Scheme → Option ℕ → M W ℕ
  after_compile s none = handle_scheme_exception
  after_compile s (some err) = if err == 0 then load_and_test s else finish s

  unfoldable pub compile_and_test : Scheme → M W ℕ
  unfolding compile_libraries load_and_test handle_scheme_exception
  compile_and_test s = compile_libraries s.compile (some (codes ".")) >>= after_compile s

  -- `main`
  unfoldable pub test_main : Scheme → M W ℕ
  unfolding compile_and_test register_c_functions handle_scheme_exception
  test_main s = if s.init_raises then handle_scheme_exception else (do
    err ← register_c_functions kernel strerror
    if eq_ℤ err (pos 0) then compile_and_test s else finish s)
