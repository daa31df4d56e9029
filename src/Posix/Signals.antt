-- ===== src/Posix/Signals.antt =====
-- posix/signal.h: the handlers and masks of signals, by the signal numbers of Linux.
pub mod Handlers
pub mod Names
mod Tests
use schemesh.Base.{ℕ, zero, suc, Bool, true, false, not, List, [], ◌∷◌, ◌==◌, if◌then◌else◌, ◌++◌}
use schemesh.Base.Int.{ℤ, pos, negsuc}
use schemesh.Posix.{
  M, Kernel, Process, Call, Handler, sig_dfl, sig_ign, sigcont_handler, sigaction, sigprocmask,
  pthread_sigmask, pthread_kill, call, c_errno, return, is_neg, ◌>>=◌, ◌>>◌,
}

abbrev pub sighup : ℕ
sighup = 1

abbrev pub sigchld : ℕ
sigchld = 17

abbrev pub sigcont : ℕ
sigcont = 18

-- SIGCHLD first, then SIGALRM, SIGPIPE, SIGQUIT, SIGTERM, SIGTSTP, SIGTTIN, SIGTTOU, SIGUSR1,
-- SIGUSR2, SIGPWR, SIGURG, SIGVTALRM
abbrev pub signals_tohandle_rest : List ℕ
signals_tohandle_rest = 14 ∷ 13 ∷ 3 ∷ 15 ∷ 20 ∷ 21 ∷ 22 ∷ 10 ∷ 12 ∷ 30 ∷ 23 ∷ 26 ∷ []

abbrev pub signals_tohandle : List ℕ
signals_tohandle = sigchld ∷ signals_tohandle_rest

-- SIGABRT, SIGALRM, SIGBUS, SIGCHLD, SIGCONT, SIGFPE, SIGHUP, SIGILL, SIGINT, SIGKILL, SIGPIPE,
-- SIGQUIT, SIGSEGV, SIGSTOP, SIGTERM, SIGTSTP, SIGTTIN, SIGTTOU, SIGUSR1, SIGUSR2, SIGWINCH, then the
-- optional ones of Linux: SIGIO, SIGPOLL, SIGPROF, SIGPWR, SIGSTKFLT, SIGSYS, SIGTRAP, SIGURG,
-- SIGVTALRM, SIGXCPU, SIGXFSZ
abbrev pub signals_known : List ℕ
signals_known =
    6 ∷ 14 ∷ 7 ∷ 17 ∷ 18 ∷ 8 ∷ 1 ∷ 4 ∷ 2 ∷ 9 ∷ 13 ∷ 3 ∷ 11 ∷ 19 ∷ 15 ∷ 20 ∷ 21 ∷ 22 ∷ 10 ∷ 12 ∷ 28
    ∷ 29 ∷ 29 ∷ 27 ∷ 30 ∷ 16 ∷ 31 ∷ 5 ∷ 23 ∷ 26 ∷ 24 ∷ 25 ∷ []

-- `sigaddset` for each known signal but SIGHUP.
unfoldable pub without_sighup : List ℕ → List ℕ
without_sighup [] = []
without_sighup (sig ∷ sigs) =
    let rest = without_sighup sigs in if not (sig == sighup) then sig ∷ rest else rest

-- SIGHUP, SIGINT, SIGQUIT, SIGPIPE, SIGCHLD, SIGWINCH
abbrev pub block_signals : List ℕ
block_signals = 1 ∷ 2 ∷ 3 ∷ 13 ∷ 17 ∷ 28 ∷ []

-- `atomic_exchange(&c_sigwinch_received, 0)`, and what the handler does; the flag is the state.
abbrev pub handle_sigwinch : Bool → Bool
handle_sigwinch received = true

abbrev pub signal_consume_sigwinch : Bool → Bool × Bool
signal_consume_sigwinch received = (received, false)

module _ {W : Type 0} (kernel : Kernel W) where
  unfoldable pub check_call : Call → M W ℤ
  check_call c = do err ← call kernel c; if is_neg err then c_errno else return (pos 0)

  -- The same handler for each signal; the loop ends at the first failure.
  unfoldable pub handle_loop : Handler → List ℕ → M W ℤ
  handle_loop handler [] = return (pos 0)
  handle_loop handler (sig ∷ sigs) = do
    err ← call kernel (sigaction sig handler)
    if is_neg err then c_errno else handle_loop handler sigs

  -- SIG_DFL for SIGCHLD, SIG_IGN for the others. The message of `c_init_failed` is left out.
  unfoldable pub signals_init : M W ℤ
  unfolding handle_loop
  signals_init = do
    err ← call kernel (sigaction sigchld sig_dfl)
    if is_neg err then c_errno else handle_loop sig_ign signals_tohandle_rest

  unfoldable pub signals_setdefault : M W ℤ
  unfolding handle_loop
  signals_setdefault = handle_loop sig_dfl signals_tohandle_rest

  unfoldable pub signal_setdefault : ℕ → M W ℤ
  unfolding check_call
  signal_setdefault sig = check_call (sigaction sig sig_dfl)

  unfoldable pub thread_signal_setblocked : ℕ → Bool → M W ℤ
  unfolding check_call
  thread_signal_setblocked sig block = check_call (pthread_sigmask block (sig ∷ []))

  unfoldable pub thread_signal_raise : ℕ → Bool → M W ℤ
  unfolding signal_setdefault thread_signal_setblocked
  thread_signal_raise sig unset_sighandler = do
    if unset_sighandler then signal_setdefault sig else return (pos 0)
    thread_signal_setblocked sig false
    check_call (pthread_kill sig)

  unfoldable pub signals_unblock_most : M W ℤ
  unfolding check_call without_sighup
  signals_unblock_most = check_call (sigprocmask false (without_sighup signals_known))

  unfoldable pub thread_signals_block_most : M W ℤ
  unfolding check_call
  thread_signals_block_most = do
    err ← call kernel (pthread_sigmask true block_signals)
    if is_neg err then c_errno else check_call (pthread_sigmask false (sigcont ∷ []))

  unfoldable pub signal_init_sigcont : M W ℤ
  unfolding check_call
  signal_init_sigcont = check_call (sigaction sigcont sigcont_handler)
