-- ===== src/Posix/JobControl/Tests.antt =====
-- posix/posix.c, job control: the theorems at concrete inputs.
use schemesh.Base.{ℕ, ◌≡◌, ◌==◌, ◌<◌, ◌≤◌, refl, false, some, [], if◌then◌else◌, arith}
use schemesh.Base.Int.{pos, negsuc}
use schemesh.Posix.{Kernel, Process, ok, tcgetpgrp, tcsetpgrp, getpgid, kill, isatty}
use schemesh.Posix.JobControl.{pgid_foreground_cas, suspend_until_foreground}
use schemesh.Posix.JobControl.Foreground.{
  IsJobTerminal, rounds_trace, suspend_until_foreground_ends,
}

-- The state is the foreground group. Group 7 is brought to the foreground when SIGTTIN stops it.
abbrev terminal : Kernel ℕ
terminal (tcgetpgrp fd) fg = (ok fg 0, fg)
terminal (tcsetpgrp fd (pos pgid)) fg = (ok 0 0, pgid)
terminal (getpgid pid) fg = (ok 7 0, fg)
terminal (kill pid sig) fg = (ok 0 0, 7)
terminal (isatty fd) fg = (ok 1 0, fg)
terminal c fg = (ok 0 0, fg)

abbrev at_tty : ℕ → Process ℕ
at_tty fg = record {
  world = fg;
  errno = 0;
  tty_fd = pos 1023;
  tty_pgid = negsuc 0;
  environ = [];
  trace = [];
}

-- The group 5 has the foreground, so 9 gets it only where 5 was expected.
swapped : (pgid_foreground_cas terminal (pos 5) (pos 9) (at_tty 5)).1.world ≡ 9
unfolding pgid_foreground_cas
swapped = refl

not_swapped : (pgid_foreground_cas terminal (pos 6) (pos 9) (at_tty 5)).1.world ≡ 5
unfolding pgid_foreground_cas
not_swapped = refl

-- The group 7 is continued once at most.
abbrev of_seven : IsJobTerminal ℕ terminal (pos 1023) 7
of_seven = record {
  foreground = λ fg. fg;
  turns = λ fg. if fg == 7 then 0 else 1;
  asks_foreground = λ fg. refl;
  asks_own = λ fg. refl;
  continued = once;
}
  where
    once : (fg : ℕ) → (fg == 7) ≡ false → 0 < (if fg == 7 then 0 else 1)
    once fg h = ground arith

suspend_until_foreground_ends_example :
    let (r, q) = suspend_until_foreground terminal 2 (at_tty 5) in
    (r ≡ some (pos 7))
    × (q.world ≡ 7)
    × (q.tty_pgid ≡ pos 5)
    × ((n : ℕ) × (n ≤ 1) × (q.trace ≡ rounds_trace (pos 1023) (pos 7) n []))
suspend_until_foreground_ends_example =
    suspend_until_foreground_ends terminal (pos 1023) 7 of_seven 2 (at_tty 5) refl (omega arith)
