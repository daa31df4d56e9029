-- ===== src/Startup/Register.antt =====
-- The whole start: the terminal's fd, then the handler and the mask of signals.
use schemesh.Base.{
  ◌≡◌, ◌<◌, ◌∙◌, ap, refl, true, false, ℕ, List, ◌∷◌, arith, inl, inr, ◌⊎◌, Bool-cases,
}
use schemesh.Base.Int.{pos, neg}
use schemesh.Base.Text.{codes}
use schemesh.Posix.{
  Kernel, Process, Call, HasErrnos, dup2, set_cloexec, open_max, sigaction, sigprocmask,
  sigcont_handler, call, is_neg,
}
use schemesh.Posix.Calls.{call-IsSame, call-trace, call-errno}
use schemesh.Posix.Signals.{
  check_call, signal_init_sigcont, signals_unblock_most, without_sighup, signals_known, sigcont,
}
use schemesh.Startup.{register_signals, register_c_functions_posix, tty_init}
use schemesh.Startup.Terminal.{last_fd, tty_init_result, init_failed_result}

-- Every known signal but SIGHUP is unblocked.
abbrev pub unblock : Call
unblock = sigprocmask false (without_sighup signals_known)

module _ {W : Type 0} (kernel : Kernel W) (strerror : ℕ → List ℕ) where
  check_call_result :
      (c : Call) (p : Process W)
      → HasErrnos kernel
      → let (r, q) = check_call kernel c p in
        (q.tty_fd ≡ p.tty_fd)
        × (q.trace ≡ c ∷ p.trace)
        × ((r ≡ pos 0) ⊎ ((is_neg r ≡ true) × (0 < q.errno)))
  unfolding check_call
  check_call_result c p errnos =
      let t = call-trace kernel c p in
      let s = (call-IsSame kernel c p).0 in
      elim (Bool-cases (is_neg (call kernel c p).0)) [
        | inl b ↦
            let e = call-errno kernel c p errnos b in
            let n : is_neg (neg (call kernel c p).1.errno) ≡ true = ground arith in
            rw (check_call, b) (s, t, inr (n, e))
        | inr b ↦ rw (check_call, b) (s, t, inl refl)
      ]

  register_signals_result :
      (p : Process W)
      → HasErrnos kernel
      → let (r, q) = register_signals kernel strerror p in
        (q.tty_fd ≡ p.tty_fd)
        × (((r ≡ pos 0) × (q.trace ≡ unblock ∷ sigaction sigcont sigcont_handler ∷ p.trace))
            ⊎ (is_neg r ≡ true))
  unfolding register_signals signal_init_sigcont signals_unblock_most
  register_signals_result p errnos =
      let c = sigaction sigcont sigcont_handler in
      let q = (check_call kernel c p).1 in
      let (f, t, r) = check_call_result c p errnos in
      let (g, u, s) = check_call_result unblock q errnos in
      elim r [
        | inr (n, e) ↦
            let (m, k) = init_failed_result kernel strerror (codes "sigaction(SIGCONT)") q e in
            rw (register_signals, n) (k ∙ f, inr m)
        | inl z ↦ elim s [
          | inr (n, e) ↦
              let (m, k) =
                init_failed_result kernel strerror (codes "sigprocmask(SIG_UNBLOCK)")
                  (check_call kernel unblock q).1 e in
              rw (register_signals, z, n) (k ∙ g ∙ f, inr m)
          | inl y ↦ rw (register_signals, z, y) (g ∙ f, inl (refl, u ∙ ap (λ x. unblock ∷ x) t))
        ]
      ]

  -- Over a kernel whose errnos are above 0: the start returns 0 or a number below 0. If it returns 0,
  -- the last fd that a process may have is the terminal's, a copy of fd 0 that is closed on exec, the
  -- handler of SIGCONT is set and then every known signal but SIGHUP unblocked, with no other call.
  pub register_c_functions_posix_result :
      (p : Process W)
      → HasErrnos kernel
      → let (r, q) = register_c_functions_posix kernel strerror p in
        let fd = last_fd kernel strerror p in
        ((r ≡ pos 0)
          × (q.tty_fd ≡ fd)
          × (q.trace
              ≡ unblock
                ∷ sigaction sigcont sigcont_handler
                ∷ set_cloexec fd
                ∷ dup2 (pos 0) fd
                ∷ open_max
                ∷ p.trace))
        ⊎ (is_neg r ≡ true)
  unfolding register_c_functions_posix
  register_c_functions_posix_result p errnos =
      let q = (tty_init kernel strerror p).1 in
      let (f, s) = register_signals_result q errnos in
      elim (tty_init_result kernel strerror p errnos) [
        | inr (n, k) ↦ rw (register_c_functions_posix, n) (inr n)
        | inl (z, g, t) ↦ elim s [
          | inr m ↦ rw (register_c_functions_posix, z, m) (inr m)
          | inl (y, u) ↦
              rw (register_c_functions_posix, z, y)
                (inl (refl, f ∙ g, u ∙ ap (λ x. unblock ∷ sigaction sigcont sigcont_handler ∷ x) t))
        ]
      ]
