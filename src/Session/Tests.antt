-- ===== src/Session/Tests.antt =====
-- The life of the process: the theorems at a concrete run.
use schemesh.Base.{◌≡◌, refl, ◌∷◌}
use schemesh.Base.Int.{pos}
use schemesh.Posix.{Kernel, Process, ok, isatty, tcgetpgrp, getpgid, getpid, tcsetpgrp}
use schemesh.Posix.Examples.{start, no_text, at_zero}
use schemesh.Posix.JobControl.{job_control_available, job_control_change}
use schemesh.Startup.{tty_quit}
use schemesh.Session.{Reach, here, next, closes}
use schemesh.Session.First.{quit_gives_back_first}
use schemesh.Posix.Fd.{fd_close}

-- A terminal whose foreground group is 7, which is the group of the process too.
abbrev on_tty : Kernel (Unit {0})
on_tty (isatty fd) w = (ok 1 0, w)
on_tty (tcgetpgrp fd) w = (ok 7 0, w)
on_tty (getpgid pid) w = (ok 7 0, w)
on_tty getpid w = (ok 9 0, w)
on_tty c w = (ok 0 0, w)

abbrev with_tty : Process (Unit {0})
with_tty = record start { tty_fd = pos 255 }

abbrev enabled : Process (Unit {0})
enabled = (job_control_change on_tty 3 (pos 1) with_tty).1

abbrev later : Process (Unit {0})
later = (fd_close on_tty (pos 3) enabled).1

closed_once : Reach on_tty no_text at_zero enabled later
closed_once = next here (closes (pos 3))

quit_gives_back_first_example :
    (tty_quit on_tty no_text later).1.trace ≡ tcsetpgrp (pos 255) (pos 7) ∷ later.trace
unfolding job_control_available
quit_gives_back_first_example =
    quit_gives_back_first on_tty no_text at_zero 2 0 255 7 with_tty refl refl refl refl closed_once
