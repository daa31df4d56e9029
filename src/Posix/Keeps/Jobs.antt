-- ===== src/Posix/Keeps/Jobs.antt =====
-- Waiting, the handlers of signals and job control keep the terminal; job control may only store the
-- process group of a terminal that has none yet.
use schemesh.Base.{
  ℕ, zero, suc, refl, Bool, false, not, if◌then◌else◌, none, some, Bool-cases, inl, inr, arith,
}
use schemesh.Base.Int.{ℤ, pos, neg, eq_ℤ, leb_ℤ, ltb_ℤ, negate}
use schemesh.Scheme.{Ptr, fixnum, pair, snil}
use schemesh.Posix.{
  Kernel, Call, Process, is_neg, einval, eintr, enotty, sigaction, sig_dfl, waitpid, tcgetpgrp,
  getpgid, kill, tcsetpgrp, setpgid, getpid, isatty,
}
use schemesh.Posix.Keeps.{
  IsKeeping, Keeps, keep_rules, if-IsKeeping, bind-IsKeeping, option-IsKeeping, return-IsKeeping,
  c_errno-IsKeeping, c_errno_set-IsKeeping, call-IsKeeping, call_word-IsKeeping,
}
use schemesh.Posix.Keeps.Spawn.{signals_init-IsKeeping, signals_setdefault-IsKeeping}
use schemesh.Posix.Wait.{wait_result, report, no_change, wait_again, pid_wait}
use schemesh.Posix.Signals.{
  check_call, signal_setdefault, thread_signal_setblocked, thread_signal_raise,
  thread_signals_block_most,
}
use schemesh.Posix.JobControl.{
  get_tty_fd, pgid_foreground_get, pgid_foreground_set, pgid_foreground_cas, job_control_available,
  remember_pgid, suspend_until_foreground, create_foreground_pgid, enable_job_control,
  job_control_change, sigttin,
}

module _ {W : Type 0} (kernel : Kernel W) where
  report-IsKeeping : (pid : ℤ) (wstatus : ℕ) → IsKeeping (report kernel pid wstatus)
  unfolding report
  report-IsKeeping pid wstatus =
      option-IsKeeping (wait_result wstatus)
        (bind-IsKeeping (c_errno_set-IsKeeping einval) (λ err. return-IsKeeping (fixnum err)))
        (λ result. return-IsKeeping (pair (fixnum pid) (fixnum (pos result))))

  abbrev quiet : ℤ → Ptr
  quiet err = if no_change err then snil else fixnum err

  wait_again-IsKeeping :
      (retries : ℕ) (pid : ℤ) (may_block : Bool)
      → IsKeeping (wait_again kernel retries pid may_block)
  unfolding wait_again
  wait_again-IsKeeping zero pid may_block =
      bind-IsKeeping (call_word-IsKeeping kernel (waitpid pid may_block)) (λ r.
        if-IsKeeping (is_neg r.0)
          (bind-IsKeeping c_errno-IsKeeping (λ err. return-IsKeeping (quiet err)))
          (if-IsKeeping (eq_ℤ r.0 (pos 0)) (return-IsKeeping snil) (report-IsKeeping r.0 r.1)))
  wait_again-IsKeeping (suc retries) pid may_block =
      bind-IsKeeping (call_word-IsKeeping kernel (waitpid pid may_block)) (λ r.
        if-IsKeeping (is_neg r.0)
          (bind-IsKeeping c_errno-IsKeeping (λ err.
            if-IsKeeping (eq_ℤ err (neg eintr)) (wait_again-IsKeeping retries pid false)
              (return-IsKeeping (quiet err))))
          (if-IsKeeping (eq_ℤ r.0 (pos 0)) (return-IsKeeping snil) (report-IsKeeping r.0 r.1)))

  pub pid_wait-IsKeeping : (pid : ℤ) (may_block : Bool) → IsKeeping (pid_wait kernel pid may_block)
  unfolding pid_wait
  pid_wait-IsKeeping pid may_block = wait_again-IsKeeping 1 pid may_block

  pub check_call-IsKeeping : (c : Call) → IsKeeping (check_call kernel c)
  unfolding check_call
  check_call-IsKeeping c = search keep_rules

  pub signal_setdefault-IsKeeping : (sig : ℕ) → IsKeeping (signal_setdefault kernel sig)
  unfolding signal_setdefault
  signal_setdefault-IsKeeping sig = check_call-IsKeeping (sigaction sig sig_dfl)

  pub thread_signal_raise-IsKeeping :
      (sig : ℕ) (unset : Bool) → IsKeeping (thread_signal_raise kernel sig unset)
  unfolding thread_signal_raise signal_setdefault thread_signal_setblocked
  thread_signal_raise-IsKeeping sig unset = search (keep_rules, check_call-IsKeeping)

  pub thread_signals_block_most-IsKeeping : IsKeeping (thread_signals_block_most kernel)
  unfolding thread_signals_block_most
  thread_signals_block_most-IsKeeping = search (keep_rules, check_call-IsKeeping)

  get_tty_fd-IsKeeping : IsKeeping {W = W} get_tty_fd
  get_tty_fd-IsKeeping = record { keeps = λ p. (refl, λ n. refl) }

  pub pgid_foreground_get-IsKeeping : IsKeeping (pgid_foreground_get kernel)
  unfolding pgid_foreground_get
  pgid_foreground_get-IsKeeping = bind-IsKeeping get_tty_fd-IsKeeping (λ fd.
      bind-IsKeeping (call-IsKeeping kernel (tcgetpgrp fd))
        (λ pgid. if-IsKeeping (is_neg pgid) c_errno-IsKeeping (return-IsKeeping pgid)))

  pub pgid_foreground_set-IsKeeping : (new : ℤ) → IsKeeping (pgid_foreground_set kernel new)
  unfolding pgid_foreground_set
  pgid_foreground_set-IsKeeping new = bind-IsKeeping get_tty_fd-IsKeeping (λ fd.
      bind-IsKeeping (call-IsKeeping kernel (tcsetpgrp fd new))
        (λ err. if-IsKeeping (is_neg err) c_errno-IsKeeping (return-IsKeeping (pos 0))))

  pub pgid_foreground_cas-IsKeeping : (old new : ℤ) → IsKeeping (pgid_foreground_cas kernel old new)
  unfolding pgid_foreground_cas
  pgid_foreground_cas-IsKeeping old new =
      if-IsKeeping (is_neg old) (pgid_foreground_set-IsKeeping new) (
        bind-IsKeeping get_tty_fd-IsKeeping (λ fd.
          bind-IsKeeping (call-IsKeeping kernel (tcgetpgrp fd)) (λ current.
            if-IsKeeping (is_neg current) c_errno-IsKeeping (
              if-IsKeeping (not (eq_ℤ current old)) (return-IsKeeping (pos 0)) (
                if-IsKeeping (eq_ℤ current new) (return-IsKeeping (pos 0))
                  (pgid_foreground_set-IsKeeping new))))))

  pub job_control_available-IsKeeping : IsKeeping (job_control_available kernel)
  unfolding job_control_available
  job_control_available-IsKeeping = bind-IsKeeping get_tty_fd-IsKeeping (λ fd.
      if-IsKeeping (is_neg fd) (return-IsKeeping false) (
        bind-IsKeeping (call-IsKeeping kernel (isatty fd))
          (λ r. return-IsKeeping (ltb_ℤ (pos 0) r))))

  -- A process group is stored where there is none, and kept where there is one.
  remember_pgid-IsKeeping : (fg_pgid : ℤ) → IsKeeping (remember_pgid kernel fg_pgid)
  remember_pgid-IsKeeping fg_pgid = record { keeps = remembered }
    where
      remembered : (p : Process W) → Keeps p (remember_pgid kernel fg_pgid p).1
      remembered p = elim (Bool-cases (is_neg p.tty_pgid)) [
        | inl b ↦ rw b (refl, λ n. absurd (ground arith))
        | inr b ↦ rw b (refl, λ n. refl)
      ]

  pub suspend_until_foreground-IsKeeping :
      (rounds : ℕ) → IsKeeping (suspend_until_foreground kernel rounds)
  unfolding suspend_until_foreground
  suspend_until_foreground-IsKeeping zero = return-IsKeeping none
  suspend_until_foreground-IsKeeping (suc rounds) = bind-IsKeeping get_tty_fd-IsKeeping (λ fd.
      bind-IsKeeping (call-IsKeeping kernel (tcgetpgrp fd)) (λ fg_pgid.
        bind-IsKeeping (call-IsKeeping kernel (getpgid (pos 0))) (λ pgid.
          bind-IsKeeping (remember_pgid-IsKeeping fg_pgid) (λ r.
            if-IsKeeping (eq_ℤ fg_pgid pgid) (return-IsKeeping (some pgid)) (
              bind-IsKeeping (call-IsKeeping kernel (kill (negate pgid) sigttin))
                (λ k. suspend_until_foreground-IsKeeping rounds))))))

  create_foreground_pgid-IsKeeping : (pgid : ℤ) → IsKeeping (create_foreground_pgid kernel pgid)
  unfolding create_foreground_pgid
  create_foreground_pgid-IsKeeping pgid = bind-IsKeeping (call-IsKeeping kernel getpid) (λ pid.
      if-IsKeeping (eq_ℤ pgid pid) (return-IsKeeping pgid) (
        bind-IsKeeping (call-IsKeeping kernel (setpgid (pos 0) (pos 0))) (λ err.
          if-IsKeeping (is_neg err) c_errno-IsKeeping (
            bind-IsKeeping (call-IsKeeping kernel (getpgid (pos 0))) (λ new.
              if-IsKeeping (is_neg new) c_errno-IsKeeping (
                bind-IsKeeping get_tty_fd-IsKeeping (λ fd.
                  bind-IsKeeping (call-IsKeeping kernel (tcsetpgrp fd new)) (λ err'.
                    if-IsKeeping (is_neg err') c_errno-IsKeeping (return-IsKeeping new)))))))))

  pub enable_job_control-IsKeeping : (pgid : ℤ) → IsKeeping (enable_job_control kernel pgid)
  unfolding enable_job_control
  enable_job_control-IsKeeping pgid = bind-IsKeeping (signals_init-IsKeeping kernel) (λ err.
      if-IsKeeping (is_neg err) (return-IsKeeping (some err))
        (bind-IsKeeping (create_foreground_pgid-IsKeeping pgid) (λ r. return-IsKeeping (some r))))

  pub job_control_change-IsKeeping :
      (rounds : ℕ) (enable : ℤ) → IsKeeping (job_control_change kernel rounds enable)
  unfolding job_control_change
  job_control_change-IsKeeping rounds enable =
      if-IsKeeping (leb_ℤ enable (pos 0))
        (bind-IsKeeping (signals_setdefault-IsKeeping kernel) (λ err. return-IsKeeping (some err)))
        (bind-IsKeeping job_control_available-IsKeeping (λ available.
          if-IsKeeping (not available)
            (bind-IsKeeping (c_errno_set-IsKeeping enotty) (λ err. return-IsKeeping (some err)))
            (bind-IsKeeping (suspend_until_foreground-IsKeeping rounds)
              (λ r. option-IsKeeping r (return-IsKeeping none) enable_job_control-IsKeeping))))
