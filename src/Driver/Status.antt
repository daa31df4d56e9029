-- ===== src/Driver/Status.antt =====
-- The status with which the program of the tests exits.
use schemesh.Base.{
  ℕ, ◌≡◌, refl, false, Option, some, none, List, [], ◌∷◌, ◌∙◌, ap, Bool-cases, inl, inr, ◌==◌,
}
use schemesh.Base.Int.{pos, eq_ℤ}
use schemesh.Base.Text.{codes}
use schemesh.Scheme.{Ptr}
use schemesh.Posix.{M, Kernel, Process, chdir, call, einval}
use schemesh.Shell.{load_libraries, register_c_functions}
use schemesh.Driver.Counting.{run_all_tests-reported}
use schemesh.Driver.{
  Counters, Report, none_run, Scheme, run_scheme_tests, run_files, reported, test_files,
  compile_libraries, finish, import_and_test, after_tests, after_compile, load_and_test,
  compile_and_test, test_main,
}

-- No call of Scheme raises.
abbrev pub NoneRaises : Scheme → Ptr → (List ℕ → Ptr) → Type 0
NoneRaises s compiled answer =
    (s.init_raises ≡ false)
    × (s.compile ≡ some compiled)
    × (s.import_raises ≡ false)
    × (s.load_raises ≡ false)
    × (s.run_tests ≡ (λ file. some (answer file)))
    × (s.quit_raises ≡ false)

run_files-ends :
    (answer : List ℕ → Ptr) (files : List (List ℕ)) (c : Counters)
    → (d : Counters) × (run_files (λ file. some (answer file)) files c ≡ some d)
unfolding run_files
run_files-ends answer [] c = (c, refl)
run_files-ends answer (file ∷ files) c =
    run_files-ends answer files (run_scheme_tests (answer file) c)

module _ {W : Type 0} (kernel : Kernel W) (strerror : ℕ → List ℕ)
    (scheme_deinit : M W (Unit {0})) where
  finish-zero :
      (s : Scheme) (p : Process W)
      → s.quit_raises ≡ false
      → (finish kernel strerror scheme_deinit s p).0 ≡ 0
  unfolding finish
  finish-zero s p e = rw (finish, e) refl

  import_and_test-zero :
      (s : Scheme) (compiled : Ptr) (answer : List ℕ → Ptr) (p : Process W)
      → NoneRaises s compiled answer
      → (import_and_test kernel strerror scheme_deinit s p).0 ≡ 0
  unfolding import_and_test
  import_and_test-zero s compiled answer p (i, c, m, l, t, q) =
      let (d, e) = run_files-ends answer test_files none_run in
      let r =
        run_all_tests-reported s l
        ∙ ap (λ f. reported (run_files f test_files none_run)) t
        ∙ ap reported e in
      let after : Option (ℕ × Report) → ℕ =
        λ x. (after_tests kernel strerror scheme_deinit s x p).0 in
      simp (m) (ap after r ∙ finish-zero s p q)

  load_and_test-zero :
      (s : Scheme) (compiled : Ptr) (answer : List ℕ → Ptr) (p : Process W)
      → NoneRaises s compiled answer
      → (load_and_test kernel strerror scheme_deinit s p).0 ≡ 0
  unfolding load_and_test
  load_and_test-zero s compiled answer p (i, c, m, l, t, q) =
      elim (Bool-cases ((load_libraries s.try_load none (some (codes "."))).0 == 0)) [
        | inl b ↦
            rw (load_and_test, b) (import_and_test-zero s compiled answer p (i, c, m, l, t, q))
        | inr b ↦ rw (load_and_test, b) (finish-zero s p q)
      ]

  compile_libraries-some :
      (compiled : Ptr) (dir : Option (List ℕ)) (p : Process W)
      → (err : ℕ) × ((compile_libraries kernel strerror scheme_deinit (some compiled) dir p).0
          ≡ some err)
  unfolding compile_libraries
  compile_libraries-some compiled none p = (einval, refl)
  compile_libraries-some compiled (some dir) p =
      elim (Bool-cases (eq_ℤ (call kernel (chdir dir) p).0 (pos 0))) [
        | inl b ↦ rw (compile_libraries, b) (_, refl)
        | inr b ↦ rw (compile_libraries, b) (_, refl)
      ]

  after_compile-zero :
      (s : Scheme) (compiled : Ptr) (answer : List ℕ → Ptr) (err : ℕ) (p : Process W)
      → NoneRaises s compiled answer
      → (after_compile kernel strerror scheme_deinit s (some err) p).0 ≡ 0
  after_compile-zero s compiled answer err p (i, c, m, l, t, q) = elim (Bool-cases (err == 0)) [
    | inl b ↦ rw b (load_and_test-zero s compiled answer p (i, c, m, l, t, q))
    | inr b ↦ rw b (finish-zero s p q)
  ]

  compile_and_test-zero :
      (s : Scheme) (compiled : Ptr) (answer : List ℕ → Ptr) (p : Process W)
      → NoneRaises s compiled answer
      → (compile_and_test kernel strerror scheme_deinit s p).0 ≡ 0
  unfolding compile_and_test
  compile_and_test-zero s compiled answer p (i, c, m, l, t, q) =
      let r = compile_libraries kernel strerror scheme_deinit s.compile (some (codes ".")) p in
      let (err, e) = compile_libraries-some compiled (some (codes ".")) p in
      let z =
        ap (λ x. (compile_libraries kernel strerror scheme_deinit x (some (codes ".")) p).0) c
        ∙ e in
      ap (λ x. (after_compile kernel strerror scheme_deinit s x r.1).0) z
      ∙ after_compile-zero s compiled answer err r.1 (i, c, m, l, t, q)

  -- Where no call of Scheme raises, the program of the tests exits with 0: whatever number of tests
  -- fails, and also if the C functions cannot be registered or the library neither compiled nor loaded.
  pub test_main_ignores :
      (s : Scheme) (compiled : Ptr) (answer : List ℕ → Ptr) (p : Process W)
      → NoneRaises s compiled answer
      → (test_main kernel strerror scheme_deinit s p).0 ≡ 0
  unfolding test_main
  test_main_ignores s compiled answer p (i, c, m, l, t, q) =
      let r = register_c_functions kernel strerror p in
      elim (Bool-cases (eq_ℤ r.0 (pos 0))) [
        | inl b ↦
            rw (test_main, i, b) (compile_and_test-zero s compiled answer r.1 (i, c, m, l, t, q))
        | inr b ↦ rw (test_main, i, b) (finish-zero s r.1 q)
      ]
