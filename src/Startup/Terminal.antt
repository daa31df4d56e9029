-- ===== src/Startup/Terminal.antt =====
-- How the terminal's fd is set up.
use schemesh.Base.{
  ℕ, ◌-◌, ◌≡◌, ◌<◌, ◌∙◌, ap, refl, true, List, ◌∷◌, arith, inl, inr, ◌⊎◌, Bool-cases,
}
use schemesh.Base.Int.{ℤ, pos, ltb_ℤ}
use schemesh.Base.Text.{codes}
use schemesh.Posix.{
  Kernel, Process, HasErrnos, dup2, set_cloexec, close, open_max, fflush, call, is_neg,
}
use schemesh.Posix.Calls.{call-IsSame, call-trace, call-errno, errno_above}
use schemesh.Startup.{init_failed, fd_open_max, tty_init, tty_init_fd, flag_tty_fd, close_tty_fd}

module _ {W : Type 0} (kernel : Kernel W) (strerror : ℕ → List ℕ) where
  -- The number of fds is one that an int holds, and not 0.
  fd_open_max_range :
      (p : Process W) → let n = (fd_open_max kernel strerror p).0 in (0 < n) × (n < 0x80000000)
  unfolding fd_open_max
  fd_open_max_range p = ground arith

  -- The fd for the terminal: the last one that a process may have.
  abbrev pub last_fd : Process W → ℤ
  last_fd p = pos ((fd_open_max kernel strerror p).0 - 1)

  pub init_failed_result :
      (label : List ℕ) (p : Process W)
      → 0 < p.errno
      → let (r, q) = init_failed kernel strerror label p in
        (is_neg r ≡ true) × (q.tty_fd ≡ p.tty_fd)
  unfolding init_failed
  init_failed_result label p h =
      (ground arith, (call-IsSame kernel fflush _).0 ∙ (call-IsSame kernel _ p).0)

  flag_tty_fd_result :
      (fd : ℤ) (p : Process W)
      → HasErrnos kernel
      → let (r, q) = flag_tty_fd kernel strerror fd p in
        ((r ≡ pos 0) × (q.tty_fd ≡ fd) × (q.trace ≡ set_cloexec fd ∷ p.trace))
        ⊎ ((is_neg r ≡ true) × (q.tty_fd ≡ p.tty_fd))
  unfolding flag_tty_fd close_tty_fd
  flag_tty_fd_result fd p errnos =
      let c = set_cloexec fd in
      let q = (call kernel c p).1 in
      elim (Bool-cases (is_neg (call kernel c p).0)) [
        | inl b ↦
            let e = errno_above kernel (close fd) q errnos (call-errno kernel c p errnos b) in
            let (n, k) =
              init_failed_result (codes "fcntl(tty_fd, F_SETFD, FD_CLOEXEC)")
                (call kernel (close fd) q).1 e in
            rw (flag_tty_fd, b)
              (inr (n, k ∙ (call-IsSame kernel (close fd) q).0 ∙ (call-IsSame kernel c p).0))
        | inr b ↦ rw (flag_tty_fd, b) (inl (refl, refl, call-trace kernel c p))
      ]

  tty_init_fd_result :
      (fd : ℤ) (p : Process W)
      → HasErrnos kernel
      → let (r, q) = tty_init_fd kernel strerror fd p in
        ((r ≡ pos 0) × (q.tty_fd ≡ fd) × (q.trace ≡ set_cloexec fd ∷ dup2 (pos 0) fd ∷ p.trace))
        ⊎ ((is_neg r ≡ true) × (q.tty_fd ≡ p.tty_fd))
  unfolding tty_init_fd
  tty_init_fd_result fd p errnos =
      let c = dup2 (pos 0) fd in
      let q = (call kernel c p).1 in
      elim (Bool-cases (is_neg (call kernel c p).0)) [
        | inl b ↦
            let (n, k) =
              init_failed_result (codes "dup2(0, tty_fd)") q (call-errno kernel c p errnos b) in
            rw (tty_init_fd, b) (inr (n, k ∙ (call-IsSame kernel c p).0))
        | inr b ↦ elim (flag_tty_fd_result fd q errnos) [
          | inl (r, f, t) ↦
              rw (tty_init_fd, b)
                (inl (r, f, rw t (ap (λ x. set_cloexec fd ∷ x) (call-trace kernel c p))))
          | inr (n, k) ↦ rw (tty_init_fd, b) (inr (n, k ∙ (call-IsSame kernel c p).0))
        ]
      ]

  fd_open_max_same :
      (p : Process W)
      → let q = (fd_open_max kernel strerror p).1 in
        (q.tty_fd ≡ p.tty_fd) × (q.trace ≡ open_max ∷ p.trace)
  unfolding fd_open_max
  fd_open_max_same p =
      let s = call-IsSame kernel open_max p in
      let t = call-trace kernel open_max p in
      elim (Bool-cases (ltb_ℤ (pos 0) (call kernel open_max p).0)) [
        | inl b ↦ rw (fd_open_max, b) (s.0, t)
        | inr b ↦ rw (fd_open_max, b) (s.0, t)
      ]

  -- Over a kernel whose errnos are above 0: setting up the terminal either returns 0, and the last
  -- fd that a process may have is a copy of fd 0 that is closed on exec, and is remembered; or it
  -- returns a number below 0 and remembers no fd.
  pub tty_init_result :
      (p : Process W)
      → HasErrnos kernel
      → let (r, q) = tty_init kernel strerror p in
        ((r ≡ pos 0)
          × (q.tty_fd ≡ last_fd p)
          × (q.trace ≡ set_cloexec (last_fd p) ∷ dup2 (pos 0) (last_fd p) ∷ open_max ∷ p.trace))
        ⊎ ((is_neg r ≡ true) × (q.tty_fd ≡ p.tty_fd))
  unfolding tty_init
  tty_init_result p errnos =
      let (s, t) = fd_open_max_same p in
      elim (tty_init_fd_result (last_fd p) (fd_open_max kernel strerror p).1 errnos) [
        | inl (r, f, u) ↦
            inl (r, f, u ∙ ap (λ x. set_cloexec (last_fd p) ∷ dup2 (pos 0) (last_fd p) ∷ x) t)
        | inr (n, k) ↦ inr (n, k ∙ s)
      ]
