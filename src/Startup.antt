-- ===== src/Startup.antt =====
-- posix/posix.c and posix/signal.h: the terminal's fd and the signals as the process starts and quits.
-- What `Sregister_symbol` stores and what `Sscheme_deinit` does are Chez Scheme's.
pub mod Terminal
pub mod Register
pub mod Keeps
mod Tests
use schemesh.Base.{
  ℕ, zero, suc, ◌-◌, ◌^◌, Bool, true, false, ◌&&◌, not, List, [], ◌∷◌, ◌++◌, ltb, if◌then◌else◌,
}
use schemesh.Base.Int.{ℤ, pos, negsuc, pos_part, ltb_ℤ}
use schemesh.Base.Text.{codes}
use schemesh.Posix.{
  M, Kernel, Process, Call, Handler, sig_dfl, sigwinch_handler, close, dup2, set_cloexec, write,
  fflush, open_max, tcsetpgrp, sigaction, call, call_word, c_errno, return, is_neg, ◌>>=◌, ◌>>◌,
}
use schemesh.Posix.Signals.{check_call, signal_init_sigcont, signals_unblock_most}

abbrev pub sigwinch : ℕ
sigwinch = 28

-- INT_MAX and _POSIX_OPEN_MAX, with an int of 32 bits
abbrev pub int_max : ℕ
int_max = 2 ^ 31 - 1

abbrev pub posix_open_max : ℕ
posix_open_max = 20

-- `tty_fd = fd`
abbrev pub set_tty_fd : {W : Type 0} → ℤ → M W ℤ
set_tty_fd fd p = (pos 0, record p { tty_fd = fd })

module _ {W : Type 0} (kernel : Kernel W) (strerror : ℕ → List ℕ) where
  -- `c_strerror` of -errno
  abbrev pub text_of : ℤ → List ℕ
  text_of (pos n) = strerror n
  text_of (negsuc n) = strerror (suc n)

  -- The message on stderr is one write here.
  unfoldable pub init_failed : List ℕ → M W ℤ
  init_failed label = do
    err ← c_errno
    call kernel (
        write (pos 2) (
          codes "error initializing POSIX subsystem: "
          ++ label
          ++ codes " failed with error "
          ++ text_of err
          ++ (10 ∷ [])))
    call kernel fflush
    return err

  unfoldable pub fd_open_max : M W ℕ
  fd_open_max = do
    ret ← call kernel open_max
    if ltb_ℤ (pos 0) ret
        then return (if ltb (pos_part ret) (2 ^ 31) then pos_part ret else int_max)
        else return posix_open_max

  unfoldable pub close_tty_fd : ℤ → M W ℤ
  unfolding init_failed
  close_tty_fd fd =
      call kernel (close fd) >> init_failed (codes "fcntl(tty_fd, F_SETFD, FD_CLOEXEC)")

  unfoldable pub flag_tty_fd : ℤ → M W ℤ
  unfolding close_tty_fd
  flag_tty_fd fd = do
    err ← call kernel (set_cloexec fd)
    if is_neg err then close_tty_fd fd else set_tty_fd fd

  unfoldable pub tty_init_fd : ℤ → M W ℤ
  unfolding init_failed flag_tty_fd
  tty_init_fd fd = do
    err ← call kernel (dup2 (pos 0) fd)
    if is_neg err then init_failed (codes "dup2(0, tty_fd)") else flag_tty_fd fd

  unfoldable pub tty_init : M W ℤ
  unfolding fd_open_max tty_init_fd
  tty_init = do n ← fd_open_max; tty_init_fd (pos (n - 1))

  unfoldable pub tty_quit : M W ℤ
  tty_quit p =
      if not (is_neg p.tty_fd) && not (is_neg p.tty_pgid)
      then call kernel (tcsetpgrp p.tty_fd p.tty_pgid) p
      else return (pos 0) p

  -- `schemesh_quit`, where `scheme_deinit` is `Sscheme_deinit`
  unfoldable pub quit : M W (Unit {0}) → M W (Unit {0})
  unfolding tty_quit
  quit scheme_deinit = tty_quit >> scheme_deinit

  -- `c_register_c_functions_posix_signals`
  unfoldable pub register_signals : M W ℤ
  unfolding init_failed signal_init_sigcont signals_unblock_most
  register_signals = do
    err ← signal_init_sigcont kernel
    if is_neg err then init_failed (codes "sigaction(SIGCONT)") else (do
      err' ← signals_unblock_most kernel
      if is_neg err' then init_failed (codes "sigprocmask(SIG_UNBLOCK)") else return (pos 0))

  -- `schemesh_register_c_functions_posix`
  unfoldable pub register_c_functions_posix : M W ℤ
  unfolding tty_init register_signals
  register_c_functions_posix = do
    err ← tty_init
    if is_neg err
        then return err
        else (do err' ← register_signals; if is_neg err' then return err' else return (pos 0))

  -- The result and `c_sigwinch_saved_action`, whose handler a successful `sigaction` stores.
  unfoldable pub signal_init_sigwinch : (ℕ → Handler) → M W (ℤ × Handler)
  unfolding init_failed
  signal_init_sigwinch handler_of = do
    (r, word) ← call_word kernel (sigaction sigwinch sigwinch_handler)
    if is_neg r
        then (init_failed (codes "sigaction(SIGWINCH)") >>= λ err. return (err, sig_dfl))
        else return (pos 0, handler_of word)

  unfoldable pub signal_restore_sigwinch : Handler → M W ℤ
  unfolding check_call
  signal_restore_sigwinch saved_action = check_call kernel (sigaction sigwinch saved_action)
