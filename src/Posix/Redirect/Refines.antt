-- ===== src/Posix/Redirect/Refines.antt =====
-- A list of redirections changes the table of open files one entry after the other, as in a shell.
use schemesh.Base.{
  ℕ, ◌≡◌, refl, ◌∙◌, sym, ap, Bool, true, false, bit_and, Option, none, some, List, inl, inr,
  if◌then◌else◌, arith, Bool-cases, Option-cases, ◌==◌,
}
use schemesh.Base.Text.{codes}
use schemesh.Base.Int.{ℤ, pos, eq_ℤ, eq-ℤ}
use schemesh.Scheme.{Ptr, Ptrs, vector, nil, cons}
use schemesh.Posix.{Kernel, Process, HasErrnos}
use schemesh.Posix.Redirect.{
  write_invalid_redirection, redirect_to, fd_redirect, fds_loop, fds_redirect, target, target_of,
  fd_of, flags_of, count, Target, closed, other_fd, path, invalid,
}
use schemesh.Posix.Redirect.Table.{
  IsTable, Changes, flags_with, call-close, redirect_to_fd-Changes, redirect_to_path-Changes,
}

module _ {W File : Type 0} (kernel : Kernel W) (t : IsTable W File kernel) where
  abbrev pub Files : Type 0
  Files = ℤ → Option File

  -- The file that a target stands for, in a table of open files.
  abbrev pub entry_of : Target → ℕ → Bool → Files → Option File
  entry_of closed open_flags close_on_exec files = none
  entry_of (other_fd n) open_flags close_on_exec files = files (pos n)
  entry_of (path name) open_flags close_on_exec files =
      some (t.file name (flags_with open_flags close_on_exec))
  entry_of invalid open_flags close_on_exec files = none

  abbrev pub assigned : Files → ℤ → Option File → Files
  assigned files fd entry k = if eq_ℤ k fd then entry else files k

  -- One redirection; one that is not valid changes nothing.
  unfoldable pub redirected_one : Ptr → Ptr → Ptr → Bool → Files → Files
  redirected_one from_fd direction_ch to close_on_exec files =
      elim (fd_of from_fd) as (λ x. Files) [
        | none ↦ files
        | some fd ↦ elim (flags_of direction_ch) as (λ x. Files) [
          | none ↦ files
          | some open_flags ↦
              assigned files (pos fd) (entry_of (target_of to) open_flags close_on_exec files)
        ]
      ]

  abbrev pub redirected : Ptrs → Bool → Files → Files
  redirected (cons from_fd (cons direction_ch (cons to (cons bytevector0 rest)))) close_on_exec
        files =
      redirected rest close_on_exec
        (redirected_one from_fd direction_ch (target to bytevector0) close_on_exec files)
  redirected _ close_on_exec files = files

  redirected_valid :
      (from_fd direction_ch to : Ptr) (flag : Bool) (files : Files) (fd open_flags : ℕ)
      → fd_of from_fd ≡ some fd
      → flags_of direction_ch ≡ some open_flags
      → redirected_one from_fd direction_ch to flag files
        ≡ assigned files (pos fd) (entry_of (target_of to) open_flags flag files)
  unfolding redirected_one
  redirected_valid from_fd direction_ch to flag files fd open_flags e g =
      rw (redirected_one, e, g) refl

  Changes-assigned :
      (w v : W) (fd : ℤ) (entry : Option File)
      → Changes kernel t w v fd entry
      → t.table v ≡ assigned (t.table w) fd entry
  Changes-assigned w v fd entry (here, others) i k = pointwise k i
    where
      pointwise : (k : ℤ) → t.table v k ≡ assigned (t.table w) fd entry k
      pointwise k = elim (Bool-cases (eq_ℤ k fd)) [
        | inl e ↦ rw e (ap (t.table v) (eq-ℤ k fd e) ∙ here)
        | inr e ↦ rw e (others k e)
      ]

module _ {W File : Type 0} (kernel : Kernel W) (strerror : ℕ → List ℕ) (address : Ptr → ℕ)
    (t : IsTable W File kernel) (errnos : HasErrnos kernel) where
  invalid-result :
      (label : List ℕ) (value : Ptr) (p : Process W)
      → (write_invalid_redirection kernel strerror address label value p).0 ≡ pos 0
      → ⊥
  unfolding write_invalid_redirection
  invalid-result label value p h = ground arith

  redirect_to-table :
      (to : Target) (fd open_flags : ℕ) (shown : Ptr) (flag : Bool) (p : Process W)
      → let (r, q) = redirect_to kernel strerror address to fd open_flags shown flag p in
        r ≡ pos 0
        → t.table q.world
          ≡ assigned kernel t
              (t.table p.world)
              (pos fd)
              (entry_of kernel t to open_flags flag (t.table p.world))
  unfolding redirect_to
  redirect_to-table closed fd open_flags shown flag p h =
      Changes-assigned kernel t p.world _ (pos fd) none (call-close kernel t (pos fd) p)
  redirect_to-table (other_fd n) fd open_flags shown flag p h =
      Changes-assigned kernel t p.world _ (pos fd) _
        (redirect_to_fd-Changes kernel strerror address t errnos fd n flag p h)
  redirect_to-table (path name) fd open_flags shown flag p h =
      Changes-assigned kernel t p.world _ (pos fd) _
        (redirect_to_path-Changes kernel strerror address t errnos fd open_flags name flag p h)
  redirect_to-table invalid fd open_flags shown flag p h =
      absurd (invalid-result (codes "to_fd_or_bytevector") shown p h)

  fd_redirect-table :
      (from_fd direction_ch to : Ptr) (flag : Bool) (p : Process W)
      → let (r, q) = fd_redirect kernel strerror address from_fd direction_ch to flag p in
        r ≡ pos 0
        → t.table q.world ≡ redirected_one kernel t from_fd direction_ch to flag (t.table p.world)
  unfolding fd_redirect
  fd_redirect-table from_fd direction_ch to flag p = elim (Option-cases (fd_of from_fd)) [
    | inl e ↦ rw (fd_redirect, e) (λ h. absurd (invalid-result (codes "from_fd") from_fd p h))
    | inr (fd, e) ↦ elim (Option-cases (flags_of direction_ch)) [
      | inl g ↦
          rw (fd_redirect, e, g)
            (λ h. absurd (invalid-result (codes "direction_ch") direction_ch p h))
      | inr (open_flags, g) ↦
          rw (fd_redirect, e, g)
            (λ h.
              redirect_to-table (target_of to) fd open_flags to flag p h
              ∙ sym (
                  redirected_valid kernel t from_fd direction_ch to flag (t.table p.world) fd
                    open_flags e g))
    ]
  ]

  loop_goes_on :
      (a b c d : Ptr) (rest : Ptrs) (flag : Bool) (p : Process W)
      → let (r, q) = fd_redirect kernel strerror address a b (target c d) flag p in
        eq_ℤ r (pos 0) ≡ true
        → fds_loop kernel strerror address (cons a (cons b (cons c (cons d rest)))) flag p
          ≡ fds_loop kernel strerror address rest flag q
  unfolding fds_loop
  loop_goes_on a b c d rest flag p e = rw (fds_loop, e) refl

  stopped :
      (a b c d : Ptr) (rest : Ptrs) (flag : Bool) (p : Process W)
      → eq_ℤ (fd_redirect kernel strerror address a b (target c d) flag p).0 (pos 0) ≡ false
      → (fds_loop kernel strerror address (cons a (cons b (cons c (cons d rest)))) flag p).0 ≡ pos 0
      → ⊥
  unfolding fds_loop
  stopped a b c d rest flag p e = rw (fds_loop, e) (λ h. absurd (ground arith))

  fds_loop-table :
      (xs : Ptrs) (flag : Bool) (p : Process W)
      → let (r, q) = fds_loop kernel strerror address xs flag p in
        r ≡ pos 0 → t.table q.world ≡ redirected kernel t xs flag (t.table p.world)
  unfolding fds_loop
  fds_loop-table nil flag p h = refl
  fds_loop-table (cons a nil) flag p h = refl
  fds_loop-table (cons a (cons b nil)) flag p h = refl
  fds_loop-table (cons a (cons b (cons c nil))) flag p h = refl
  fds_loop-table (cons a (cons b (cons c (cons d rest)))) flag p h =
      let q = (fd_redirect kernel strerror address a b (target c d) flag p).1 in
      let r = (fd_redirect kernel strerror address a b (target c d) flag p).0 in
      elim (Bool-cases (eq_ℤ r (pos 0))) [
        | inl e ↦
            let z = eq-ℤ r (pos 0) e in
            let first = fd_redirect-table a b (target c d) flag p z in
            let u = loop_goes_on a b c d rest flag p e in
            rw u (fds_loop-table rest flag q (rw u at h) ∙ ap (redirected kernel t rest flag) first)
        | inr e ↦ absurd (stopped a b c d rest flag p e h)
      ]

  -- Over a kernel with a table of open files and errnos above 0: if the redirections of a vector
  -- succeed, then the table of open files is the one that the redirections make one after the other,
  -- each from the table that those in front of it left, and no other fd changes.
  pub fds_redirect-redirected :
      (xs : Ptrs) (flag : Bool) (p : Process W)
      → let (r, q) = fds_redirect kernel strerror address (vector xs) flag p in
        r ≡ pos 0 → t.table q.world ≡ redirected kernel t xs flag (t.table p.world)
  unfolding fds_redirect
  fds_redirect-redirected xs flag p = elim (Bool-cases (bit_and (count xs) 3 == 0)) [
    | inl b ↦ rw (fds_redirect, b) (fds_loop-table xs flag p)
    | inr b ↦
        rw (fds_redirect, b)
          (λ h. absurd (invalid-result (codes "vector_fds_redirect") (vector xs) p h))
  ]
