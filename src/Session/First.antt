-- ===== src/Session/First.antt =====
-- The group that was in the foreground when job control was first enabled gets the terminal back.
use schemesh.Base.{
  ℕ, suc, ◌≡◌, refl, ◌∙◌, ap, true, false, ◌∷◌, List, Option, none, some, Bool, if◌then◌else◌, not,
  Bool-cases, inl, inr, arith,
}
use schemesh.Base.Int.{ℤ, pos, negate, eq_ℤ, leb_ℤ}
use schemesh.Scheme.{Ptr}
use schemesh.Posix.{
  M, Kernel, Process, tcgetpgrp, tcsetpgrp, getpgid, isatty, kill, call, is_neg, enotty,
  c_errno_set, return, ◌>>=◌,
}
use schemesh.Posix.Calls.{call-IsSame}
use schemesh.Posix.Keeps.{
  if-IsKeeping, bind-IsKeeping, option-IsKeeping, return-IsKeeping, call-IsKeeping,
}
use schemesh.Posix.Keeps.Jobs.{
  suspend_until_foreground-IsKeeping, enable_job_control-IsKeeping, job_control_change-IsKeeping,
}
use schemesh.Posix.JobControl.{
  suspend_until_foreground, job_control_available, job_control_change, enable_job_control,
  remember_pgid, sigttin,
}
use schemesh.Startup.{tty_quit}
use schemesh.Session.{Reach}
use schemesh.Session.Terminal.{tty_quit_gives_back}

if_available :
    {W A : Type 0} (m : M W Bool) (x y : M W A) (p : Process W)
    → (m p).0 ≡ true
    → (m >>= λ available. if not available then x else y) p ≡ y (m p).1
if_available m x y p h = rw h refl

module _ {W : Type 0} (kernel : Kernel W) where
  -- The state in which the first round remembers the foreground group.
  abbrev asked : Process W → Process W
  asked p = (call kernel (getpgid (pos 0)) (call kernel (tcgetpgrp p.tty_fd) p).1).1

  remembers :
      (q : Process W) (fg_pgid : ℤ)
      → is_neg q.tty_pgid ≡ true
      → (remember_pgid kernel fg_pgid q).1.tty_pgid ≡ fg_pgid
  remembers q fg_pgid h = rw h refl

  suspend_stores :
      (rounds pgid : ℕ) (p : Process W)
      → is_neg p.tty_pgid ≡ true
      → (call kernel (tcgetpgrp p.tty_fd) p).0 ≡ pos pgid
      → (suspend_until_foreground kernel (suc rounds) p).1.tty_pgid ≡ pos pgid
  unfolding suspend_until_foreground
  suspend_stores rounds pgid p h k =
      let fg_pgid = (call kernel (tcgetpgrp p.tty_fd) p).0 in
      let own = (call kernel (getpgid (pos 0)) (call kernel (tcgetpgrp p.tty_fd) p).1).0 in
      let a = call-IsSame kernel (tcgetpgrp p.tty_fd) p in
      let b = call-IsSame kernel (getpgid (pos 0)) (call kernel (tcgetpgrp p.tty_fd) p).1 in
      let same : is_neg (asked p).tty_pgid ≡ true = ap is_neg (b.1 ∙ a.1) ∙ h in
      let known = remembers (asked p) fg_pgid same ∙ k in
      let rest = if-IsKeeping (eq_ℤ fg_pgid own) (return-IsKeeping (some own)) (
        bind-IsKeeping (call-IsKeeping kernel (kill (negate own) sigttin))
          (λ r. suspend_until_foreground-IsKeeping kernel rounds)) in
      (rest.keeps (remember_pgid kernel fg_pgid (asked p)).1).1 (ap is_neg known ∙ refl) ∙ known

  available-pgid : (p : Process W) → (job_control_available kernel p).1.tty_pgid ≡ p.tty_pgid
  unfolding job_control_available
  available-pgid p = elim (Bool-cases (is_neg p.tty_fd)) [
    | inl b ↦ rw (job_control_available, b) refl
    | inr b ↦ rw (job_control_available, b) ((call-IsSame kernel (isatty p.tty_fd) p).1)
  ]

  change_stores :
      (rounds enable pgid : ℕ) (p : Process W)
      → (job_control_available kernel p).0 ≡ true
      → let q = (job_control_available kernel p).1 in
        is_neg q.tty_pgid ≡ true
        → (call kernel (tcgetpgrp q.tty_fd) q).0 ≡ pos pgid
        → (job_control_change kernel (suc rounds) (pos (suc enable)) p).1.tty_pgid ≡ pos pgid
  unfolding job_control_change
  change_stores rounds enable pgid p available h k =
      let q = (job_control_available kernel p).1 in
      let r = suspend_until_foreground kernel (suc rounds) q in
      let known = suspend_stores rounds pgid q h k in
      let rest =
        option-IsKeeping r.0 (return-IsKeeping none) (enable_job_control-IsKeeping kernel) in
      let kept = (rest.keeps r.1).1 (ap is_neg known ∙ refl) ∙ known in
      let unavailable : M W (Option ℤ) = c_errno_set enotty >>= λ err. return (some err) in
      let continues : M W (Option ℤ) = suspend_until_foreground kernel (suc rounds) >>= λ s.
      elim s as (λ x. M W (Option ℤ)) [
        | none ↦ return none
        | some own ↦ enable_job_control kernel own
      ] in
      let positive : leb_ℤ (pos (suc enable)) (pos 0) ≡ false = ground arith in
      rw (job_control_change, positive)
        (ap (λ s. s.1.tty_pgid)
            (if_available (job_control_available kernel) unavailable continues p available)
          ∙ kept)

module _ {W : Type 0} (kernel : Kernel W) (strerror : ℕ → List ℕ) (address : Ptr → ℕ) where
  -- Job control is enabled for the first time in the process p that has a terminal, and the kernel says
  -- that the group pgid is in the foreground. Then, after any calls of the registered functions, the
  -- process gives the terminal back to that group when it quits.
  pub quit_gives_back_first :
      (rounds enable fd pgid : ℕ) (p : Process W) {q : Process W}
      → (job_control_available kernel p).0 ≡ true
      → p.tty_fd ≡ pos fd
      → is_neg p.tty_pgid ≡ true
      → let a = (job_control_available kernel p).1 in
        (call kernel (tcgetpgrp a.tty_fd) a).0 ≡ pos pgid
        → Reach kernel strerror address
            (job_control_change kernel (suc rounds) (pos (suc enable)) p).1
            q
        → (tty_quit kernel strerror q).1.trace ≡ tcsetpgrp (pos fd) (pos pgid) ∷ q.trace
  quit_gives_back_first rounds enable fd pgid p {q} available f h k run =
      let start = (job_control_change kernel (suc rounds) (pos (suc enable)) p).1 in
      let same = (job_control_change-IsKeeping kernel (suc rounds) (pos (suc enable))).keeps p in
      let unknown = available-pgid kernel p in
      tty_quit_gives_back kernel strerror address {p = start} fd pgid (same.0 ∙ f)
        (change_stores kernel rounds enable pgid p available (ap is_neg unknown ∙ h) k) run
