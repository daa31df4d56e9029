-- ===== src/Startup/Keeps.antt =====
-- The operations beside the start that keep the terminal.
use schemesh.Base.{ℕ, List, ◌++◌, [], ◌∷◌}
use schemesh.Base.Int.{ℤ, pos}
use schemesh.Base.Text.{codes}
use schemesh.Posix.{Kernel, Handler, sigaction, sigwinch_handler, sig_dfl, is_neg, write, fflush}
use schemesh.Posix.Keeps.{
  IsKeeping, keep_rules, if-IsKeeping, bind-IsKeeping, return-IsKeeping, c_errno-IsKeeping,
  call-IsKeeping, call_word-IsKeeping,
}
use schemesh.Posix.Keeps.Jobs.{check_call-IsKeeping}
use schemesh.Startup.{
  text_of, init_failed, fd_open_max, sigwinch, signal_init_sigwinch, signal_restore_sigwinch,
}

module _ {W : Type 0} (kernel : Kernel W) (strerror : ℕ → List ℕ) where
  pub fd_open_max-IsKeeping : IsKeeping (fd_open_max kernel strerror)
  unfolding fd_open_max
  fd_open_max-IsKeeping = search keep_rules

  init_failed-IsKeeping : (label : List ℕ) → IsKeeping (init_failed kernel strerror label)
  unfolding init_failed
  init_failed-IsKeeping label = bind-IsKeeping c_errno-IsKeeping (λ err.
      bind-IsKeeping
        (call-IsKeeping kernel (
          write (pos 2) (
            codes "error initializing POSIX subsystem: "
            ++ label
            ++ codes " failed with error "
            ++ text_of kernel strerror err
            ++ (10 ∷ []))))
        (λ r. bind-IsKeeping (call-IsKeeping kernel fflush) (λ s. return-IsKeeping err)))

  pub signal_init_sigwinch-IsKeeping :
      (handler_of : ℕ → Handler) → IsKeeping (signal_init_sigwinch kernel strerror handler_of)
  unfolding signal_init_sigwinch
  signal_init_sigwinch-IsKeeping handler_of =
      bind-IsKeeping (call_word-IsKeeping kernel (sigaction sigwinch sigwinch_handler)) (λ r.
        if-IsKeeping (is_neg r.0)
          (bind-IsKeeping (init_failed-IsKeeping (codes "sigaction(SIGWINCH)"))
            (λ err. return-IsKeeping {A = ℤ × Handler} (err, sig_dfl)))
          (return-IsKeeping {A = ℤ × Handler} (pos 0, handler_of r.1)))

  pub signal_restore_sigwinch-IsKeeping :
      (saved : Handler) → IsKeeping (signal_restore_sigwinch kernel strerror saved)
  unfolding signal_restore_sigwinch
  signal_restore_sigwinch-IsKeeping saved = check_call-IsKeeping kernel (sigaction sigwinch saved)
