-- ===== src/Posix/Signals/Tests.antt =====
-- posix/signal.h: the theorems at concrete inputs.
use schemesh.Base.{arith}
use schemesh.Posix.{Kernel, ok, HasErrnos}

abbrev ready : Kernel (Unit {0})
ready c w = (ok 0 0, w)

ready-HasErrnos : HasErrnos ready
ready-HasErrnos c w e h = absurd (ground arith)
