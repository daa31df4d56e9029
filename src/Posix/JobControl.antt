-- ===== src/Posix/JobControl.antt =====
-- posix/posix.c: job control and the foreground process group of the terminal.
pub mod Foreground
mod Tests
use schemesh.Base.{
  ℕ, zero, suc, Bool, true, false, ◌&&◌, ◌||◌, not, Option, none, some, List, [], ◌∷◌,
  if◌then◌else◌,
}
use schemesh.Base.Int.{ℤ, pos, negsuc, negate, eq_ℤ, ltb_ℤ, leb_ℤ}
use schemesh.Posix.{
  M, Kernel, Process, Call, isatty, getpid, kill, getpgid, setpgid, tcgetpgrp, tcsetpgrp, call,
  c_errno, c_errno_set, enotty, return, is_neg, ◌>>=◌, ◌>>◌,
}
use schemesh.Posix.Signals.{signals_init, signals_setdefault}

abbrev pub sigttin : ℕ
sigttin = 21

abbrev pub get_tty_fd : {W : Type 0} → M W ℤ
get_tty_fd p = (p.tty_fd, p)

module _ {W : Type 0} (kernel : Kernel W) where
  unfoldable pub pgid_foreground_get : M W ℤ
  pgid_foreground_get = do
    tty_fd ← get_tty_fd
    pgid ← call kernel (tcgetpgrp tty_fd)
    if is_neg pgid then c_errno else return pgid

  unfoldable pub pgid_foreground_set : ℤ → M W ℤ
  pgid_foreground_set new_pgid = do
    tty_fd ← get_tty_fd
    err ← call kernel (tcsetpgrp tty_fd new_pgid)
    if is_neg err then c_errno else return (pos 0)

  unfoldable pub pgid_foreground_cas : ℤ → ℤ → M W ℤ
  unfolding pgid_foreground_set
  pgid_foreground_cas old_pgid new_pgid =
      if is_neg old_pgid then pgid_foreground_set new_pgid else (do
        tty_fd ← get_tty_fd
        current_pgid ← call kernel (tcgetpgrp tty_fd)
        if is_neg current_pgid
            then c_errno
            else if not (eq_ℤ current_pgid old_pgid)
            then return (pos 0)
            else if eq_ℤ current_pgid new_pgid
            then return (pos 0)
            else pgid_foreground_set new_pgid)

  unfoldable pub job_control_available : M W Bool
  job_control_available = do
    tty_fd ← get_tty_fd
    if is_neg tty_fd
        then return false
        else (do r ← call kernel (isatty tty_fd); return (ltb_ℤ (pos 0) r))

  -- `if (tty_pgid < 0) tty_pgid = fg_pgid`
  abbrev pub remember_pgid : ℤ → M W ℤ
  remember_pgid fg_pgid p =
      (fg_pgid, if is_neg p.tty_pgid then record p { tty_pgid = fg_pgid } else p)

  -- `for (;;)` with fuel for the rounds: none is a process that is still suspended.
  unfoldable pub suspend_until_foreground : ℕ → M W (Option ℤ)
  suspend_until_foreground zero = return none
  suspend_until_foreground (suc rounds) = do
    tty_fd ← get_tty_fd
    fg_pgid ← call kernel (tcgetpgrp tty_fd)
    pgid ← call kernel (getpgid (pos 0))
    remember_pgid fg_pgid
    if eq_ℤ fg_pgid pgid
        then return (some pgid)
        else (call kernel (kill (negate pgid) sigttin) >> suspend_until_foreground rounds)

  unfoldable pub create_foreground_pgid : ℤ → M W ℤ
  create_foreground_pgid pgid = do
    pid ← call kernel getpid
    if eq_ℤ pgid pid then return pgid else (do
      err ← call kernel (setpgid (pos 0) (pos 0))
      if is_neg err then c_errno else (do
        new_pgid ← call kernel (getpgid (pos 0))
        if is_neg new_pgid then c_errno else (do
          tty_fd ← get_tty_fd
          err' ← call kernel (tcsetpgrp tty_fd new_pgid)
          if is_neg err' then c_errno else return new_pgid)))

  unfoldable pub enable_job_control : ℤ → M W (Option ℤ)
  unfolding create_foreground_pgid
  enable_job_control pgid = do
    err ← signals_init kernel
    if is_neg err then return (some err) else (create_foreground_pgid pgid >>= λ r. return (some r))

  -- none: suspended for more than the given number of rounds.
  unfoldable pub job_control_change : ℕ → ℤ → M W (Option ℤ)
  unfolding suspend_until_foreground job_control_available enable_job_control
  job_control_change rounds enable =
      if leb_ℤ enable (pos 0) then (signals_setdefault kernel >>= λ err. return (some err)) else (do
        available ← job_control_available
        if not available
            then (c_errno_set enotty >>= λ err. return (some err))
            else (suspend_until_foreground rounds >>= λ r. elim r [
              | none ↦ return none
              | some pgid ↦ enable_job_control pgid
            ]))
