-- ===== src/Posix/Wait/Tests.antt =====
-- posix/posix.c, `c_pid_wait`: runs, and the theorems at concrete inputs.
use schemesh.Base.{◌≡◌, refl, true, false}
use schemesh.Base.Int.{pos}
use schemesh.Scheme.{snil}
use schemesh.Posix.Examples.{start}
use schemesh.Posix.{Kernel, ok, fail, eintr}
use schemesh.Posix.Wait.{pid_wait}
use schemesh.Posix.Wait.Status.{stopped, word}

-- Child 7 was stopped by SIGTSTP.
abbrev one_stopped : Kernel (Unit {0})
one_stopped c w = (ok 7 (word (stopped 20) false), w)

abbrev interrupted : Kernel (Unit {0})
interrupted c w = (fail eintr, w)

-- Two interrupted calls: nothing to report.
twice_interrupted : (pid_wait interrupted (pos 7) true start).0 ≡ snil
unfolding pid_wait
twice_interrupted = refl
