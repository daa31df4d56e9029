-- ===== src/JobStatus/Wait.antt =====
-- shell/scheduler.ss: `pid-wait-result->status`, and posix/status.ss: `exit-with-status`.
use schemesh.Base.{
  ℕ, ◌+◌, ◌-◌, ◌%◌, Bool, true, Option, none, some, List, ◌==◌, ltb, ◌||◌, if◌then◌else◌,
}
use schemesh.Base.Int.{ℤ, pos, neg}
use schemesh.Base.Text.{codes}
use schemesh.Scheme.{Ptr, sfalse, fixnum, symbol, pair}
use schemesh.Posix.{M, Kernel, einval, return, ◌>>=◌, ◌>>◌}
use schemesh.Posix.Signals.{thread_signal_raise}
use schemesh.Posix.Spawn.{Outcome}
use schemesh.Paths.{c_exit}
use schemesh.JobStatus.{
  running, stopped, killed, Status, void, status, Value, datum, c_exit_value, failed_status,
}
use schemesh.JobStatus.Names.{signal_name, signal_number, same_name}

-- `(signal-number->name …)`, #f where there is none
unfoldable pub name_value : ℕ → Value
name_value number = elim (signal_name number) [
  | none ↦ datum sfalse
  | some name ↦ datum (symbol name)
]

unfoldable pub pid_wait_result_to_status : Ptr → Status
unfolding failed_status name_value
pid_wait_result_to_status (fixnum (pos x)) =
    if x == 0
    then void
    else if ltb x 256
    then failed_status (datum (fixnum (pos x)))
    else if ltb x 512
    then status killed (name_value (x % 256))
    else if ltb x 768
    then status stopped (name_value (x % 256))
    else if x == 768
    then status running (datum sfalse)
    else failed_status (datum (fixnum (pos (x - 512))))
pid_wait_result_to_status x = failed_status (datum x)

-- `(cdr wait-result)` of a pair that `pid-wait` returned
unfoldable pub waited_status : Ptr → Option Status
unfolding pid_wait_result_to_status
waited_status (pair pid wait_status) = some (pid_wait_result_to_status wait_status)
waited_status _ = none

-- SIGSTOP, SIGTSTP, SIGCONT, SIGTTIN, SIGTTOU
abbrev pub keeps_alive : List ℕ → Bool
keeps_alive name =
    same_name name (codes "sigstop")
    || same_name name (codes "sigtstp")
    || same_name name (codes "sigcont")
    || same_name name (codes "sigttin")
    || same_name name (codes "sigttou")

module _ {W : Type 0} (kernel : Kernel W) where
  -- `signal-raise`
  unfoldable pub signal_raise : List ℕ → M W ℤ
  unfolding thread_signal_raise
  signal_raise name = elim (signal_number name) [
    | none ↦ return (neg einval)
    | some number ↦ thread_signal_raise kernel number true
  ]

  -- The part of the body that follows the flushes, where the status is 'killed. The result is
  -- `c-exit-value`, if the process lives.
  unfoldable pub die_of_signal : List ℕ → ℕ → M W ℕ
  unfolding signal_raise
  die_of_signal name value = do
    if keeps_alive name then return (pos 0) else signal_raise name
    return (elim (signal_number name) [ none ↦ value | some number ↦ 128 + number ])

  -- `exit-with-status`; a flush that raises leaves the body, and the process exits all the same.
  unfoldable pub exit_with_status : Bool → Status → M W Outcome
  unfolding die_of_signal c_exit_value c_exit
  exit_with_status flush_raises (status killed (datum (symbol name))) = do
    value ←
        (let v = c_exit_value (status killed (datum (symbol name))) in
          if flush_raises then return v else die_of_signal name v)
    return (c_exit (value % 256))
  exit_with_status flush_raises s = return (c_exit (c_exit_value s % 256))
