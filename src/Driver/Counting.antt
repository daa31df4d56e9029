-- ===== src/Driver/Counting.antt =====
-- What `run_all_tests` counts.
use schemesh.Base.{
  ℕ, ◌+◌, ◌≡◌, refl, ◌∙◌, ap, ◌<◌, ◌^◌, false, some, List, [], ◌∷◌, ◌==◌, if◌then◌else◌, arith,
}
use schemesh.Base.Int.{ℤ, pos}
use schemesh.Scheme.{Ptr, pair, fixnum}
use schemesh.Driver.{
  Counters, none_run, add_word, to_word, run_scheme_tests, run_files, test_files, Scheme,
  run_all_tests, reported, all_passed, some_failed,
}

-- The numbers of tests that were run and that failed, by the answer for one file; an answer that is no
-- pair of numbers is one test that failed.
abbrev pub run_of : Ptr → ℕ
run_of (pair (fixnum run) (fixnum failed)) = to_word run
run_of _ = 1

abbrev pub failed_of : Ptr → ℕ
failed_of (pair (fixnum run) (fixnum failed)) = to_word failed
failed_of _ = 1

abbrev pub total : (Ptr → ℕ) → (List ℕ → Ptr) → List (List ℕ) → ℕ
total count answer [] = 0
total count answer (file ∷ files) = count (answer file) + total count answer files

abbrev counters : ℕ → ℕ → Counters
counters run failed = record { run_n = run; failed_n = failed }

add_word-small : (n : ℕ) (i : ℤ) → n + to_word i < 2 ^ 64 → add_word n i ≡ n + to_word i
unfolding add_word
add_word-small n i h = omega arith

run_scheme_tests-counters :
    (ret : Ptr) (run failed : ℕ)
    → run + run_of ret < 2 ^ 64
    → failed + failed_of ret < 2 ^ 64
    → run_scheme_tests ret (counters run failed)
      ≡ counters (run + run_of ret) (failed + failed_of ret)
unfolding run_scheme_tests
run_scheme_tests-counters (pair (fixnum a) (fixnum b)) run failed h k =
    rw (add_word-small run a h, add_word-small failed b k) refl
run_scheme_tests-counters _ run failed h k =
    rw (add_word-small run (pos 1) h, add_word-small failed (pos 1) k) refl

run_files-counters :
    (answer : List ℕ → Ptr) (files : List (List ℕ)) (run failed : ℕ)
    → run + total run_of answer files < 2 ^ 64
    → failed + total failed_of answer files < 2 ^ 64
    → run_files (λ file. some (answer file)) files (counters run failed)
      ≡ some (counters (run + total run_of answer files) (failed + total failed_of answer files))
unfolding run_files
run_files-counters answer [] run failed h k = ground arith
run_files-counters answer (file ∷ files) run failed h k =
    let ret = answer file in
    let first = run_scheme_tests-counters ret run failed (omega arith) (omega arith) in
    let rest =
      run_files-counters answer files (run + run_of ret) (failed + failed_of ret) (omega arith)
        (omega arith) in
    rw (first, rest) (ground arith)

reported_zero :
    (run failed : ℕ)
    → reported (some (counters (0 + run) (0 + failed)))
      ≡ some (if failed == 0 then (0, all_passed run) else (1, some_failed failed run))
reported_zero run failed = ground arith

pub run_all_tests-reported :
    (s : Scheme)
    → s.load_raises ≡ false
    → run_all_tests s ≡ reported (run_files s.run_tests test_files none_run)
unfolding run_all_tests
run_all_tests-reported s l = rw (run_all_tests, l) refl

-- The report of `run_all_tests` counts the tests of all files, and an answer that is no pair of
-- numbers as one test that failed; its status is 0 exactly if none failed. This is so where no call of
-- Scheme raises, and neither number needs more than 64 bits.
pub run_all_tests_lem :
    (s : Scheme) (answer : List ℕ → Ptr)
    → s.load_raises ≡ false
    → s.run_tests ≡ (λ file. some (answer file))
    → let run = total run_of answer test_files in
      let failed = total failed_of answer test_files in
      run < 2 ^ 64
      → failed < 2 ^ 64
      → run_all_tests s
        ≡ some (if failed == 0 then (0, all_passed run) else (1, some_failed failed run))
unfolding run_all_tests
run_all_tests_lem s answer l e h k =
    run_all_tests-reported s l
    ∙ ap (λ f. reported (run_files f test_files none_run)) e
    ∙ ap reported (run_files-counters answer test_files 0 0 (omega arith) (omega arith))
    ∙ reported_zero _ _
