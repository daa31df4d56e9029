-- ===== src/JobStatus/Tests.antt =====
-- posix/status.ss and shell/scheduler.ss: runs, and the theorems at concrete inputs.
use schemesh.Base.{◌+◌, ◌*◌, ◌≡◌, refl, true, false, some, [], ◌∷◌, arith}
use schemesh.Base.Int.{pos}
use schemesh.Base.Text.{codes}
use schemesh.Scheme.{fixnum, symbol, sfalse}
use schemesh.Posix.{Kernel, ok, waitpid, sigaction, sig_dfl, pthread_sigmask, pthread_kill}
use schemesh.Posix.Spawn.{exited}
use schemesh.Posix.Examples.{all_files, start}
use schemesh.Posix.Wait.{pid_wait}
use schemesh.JobStatus.{stopped, failed, killed, status, datum, nil, cons, list_to_ok}
use schemesh.JobStatus.Names.{signal_name, signal_number}
use schemesh.JobStatus.Wait.{waited_status, pid_wait_result_to_status, exit_with_status}
use schemesh.JobStatus.Survives.{exit_with_status-failed, exit_with_status-killed}

-- The child 42 exited with 3, and the child 42 was killed by SIGINT.
abbrev exits : Kernel (Unit {0})
exits (waitpid pid block) w = (ok 42 (3 * 256), w)
exits c w = (ok 0 0, w)

abbrev interrupted : Kernel (Unit {0})
interrupted (waitpid pid block) w = (ok 42 2, w)
interrupted c w = (ok 0 0, w)

stopped_code :
    pid_wait_result_to_status (fixnum (pos (512 + 20)))
    ≡ status stopped (datum (symbol (codes "sigtstp")))
unfolding pid_wait_result_to_status signal_name
stopped_code = refl

one_false : list_to_ok (cons (datum sfalse) nil) ≡ status failed (datum sfalse)
unfolding list_to_ok
one_false = refl

-- A number whose low byte is 0 is no success.
failed_256 :
    (exit_with_status all_files false (status failed (datum (fixnum (pos 256)))) start).0 ≡ exited 1
unfolding exit_with_status
failed_256 = refl

exit_with_status-failed_example :
    waited_status (pid_wait exits (pos 42) true start).0
    ≡ some (status failed (datum (fixnum (pos 3))))
unfolding exit_with_status
exit_with_status-failed_example =
    exit_with_status-failed all_files exits 3 true start (pos 42) true start 41 3 false
      (ground arith) (ground arith) refl refl

exit_with_status-killed_example :
    let s = status killed (datum (symbol (codes "sigint"))) in
    let (end, r) = exit_with_status all_files false s start in
    (r.trace ≡ pthread_kill 2 ∷ pthread_sigmask false (2 ∷ []) ∷ sigaction 2 sig_dfl ∷ [])
    × (end ≡ exited 130)
    × (waited_status (pid_wait interrupted (pos 42) true start).0 ≡ some s)
unfolding signal_number
exit_with_status-killed_example =
    exit_with_status-killed all_files interrupted (codes "sigint") 2 start (pos 42) true start 41
      false refl refl refl
