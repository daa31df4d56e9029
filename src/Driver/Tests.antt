-- ===== src/Driver/Tests.antt =====
-- test/test.c: runs, and the theorems at concrete inputs.
use schemesh.Base.{ℕ, ◌≡◌, refl, true, false, some, List, if◌then◌else◌, ◌==◌, arith}
use schemesh.Base.Int.{pos, negsuc}
use schemesh.Scheme.{Ptr, pair, fixnum, strue, sfalse}
use schemesh.Posix.{M}
use schemesh.Posix.Examples.{all_files, no_text, start}
use schemesh.Startup.{register_c_functions_posix}
use schemesh.Driver.{
  Scheme, add_word, run_all_tests, test_files, test_main, all_passed, some_failed,
}
use schemesh.Driver.Counting.{run_of, failed_of, total, run_all_tests_lem}
use schemesh.Driver.Status.{test_main_ignores}

abbrev three_fail : List ℕ → Ptr
three_fail file = pair (fixnum (pos 10)) (fixnum (pos 3))

abbrev failing : Scheme
failing = record {
  init_raises = false;
  compile = some strue;
  try_load = λ dir. strue;
  import_raises = false;
  load_raises = false;
  run_tests = λ file. some (three_fail file);
  quit_raises = false;
}

abbrev nothing_more : M (Unit {0}) (Unit {0})
nothing_more p = (tt, p)

-- One less than no test at all.
wrapped : add_word 0 (negsuc 0) ≡ 0xFFFFFFFFFFFFFFFF
unfolding add_word
wrapped = refl

counted : run_all_tests failing ≡ some (1, some_failed 12 40)
unfolding run_all_tests
counted = refl

-- No answer is a pair of numbers: each file counts as one failed test.
unanswered :
    run_all_tests (record failing { run_tests = λ file. some sfalse }) ≡ some (1, some_failed 4 4)
unfolding run_all_tests
unanswered = refl

-- An exception in a test exits with 1.
raising :
    (test_main all_files no_text nothing_more (record failing { import_raises = true }) start).0 ≡ 1
unfolding test_main register_c_functions_posix
raising = refl

run_all_tests_lem_example :
    let run = total run_of three_fail test_files in
    let failed = total failed_of three_fail test_files in
    run_all_tests failing
    ≡ some (if failed == 0 then (0, all_passed run) else (1, some_failed failed run))
run_all_tests_lem_example =
    run_all_tests_lem failing three_fail refl refl (ground arith) (ground arith)

test_main_ignores_example : (test_main all_files no_text nothing_more failing start).0 ≡ 0
test_main_ignores_example =
    test_main_ignores all_files no_text nothing_more failing strue three_fail start
      (refl, refl, refl, refl, refl, refl)
