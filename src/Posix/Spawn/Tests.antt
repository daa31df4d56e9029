-- ===== src/Posix/Spawn/Tests.antt =====
-- posix/posix.c, fork and exec: runs, and the theorems at concrete inputs.
use schemesh.Base.{◌≡◌, refl, true, false, [], ◌∷◌, ◌++◌, arith}
use schemesh.Base.Int.{pos, negsuc}
use schemesh.Base.Text.{codes}
use schemesh.Scheme.{Ptr, bytevector, nil, cons, vector, sfalse, fixnum, char}
use schemesh.Posix.{Kernel, Process, Call, ok, fail, fork}
use schemesh.Posix.Examples.{no_files, forks, no_text, at_zero, start, out_to_file, to_file}
use schemesh.Posix.Redirect.{fds_redirect, direction_to_open_flags, target_of}
use schemesh.Posix.Signals.{signals_setdefault}
use schemesh.Posix.Spawn.{
  contains_slash, vector_to_c_argz, returned, executing, cmd_exec, cmd_spawn, fork_pid,
}
use schemesh.Posix.Spawn.Files.{fork_pid-redirected}
use schemesh.Posix.Redirect.Files.{
  table_kernel, table_kernel-IsTable, table_kernel-HasErrnos, on_terminal, shell,
}
use schemesh.Posix.Redirect.Refines.{redirected}
use schemesh.Posix.Spawn.Outcomes.{
  is_open, is_failure, cmd_exec_redirect_ignored, fork_pid_redirect_failed,
}

abbrev ls : Ptr
ls = vector (cons (bytevector (codes "ls" ++ (0 ∷ []))) nil)

abbrev no_environ : Ptr
no_environ = vector nil

-- The parent gets the pid although `setpgid` fails.
spawn_parent :
    (cmd_spawn forks no_text at_zero ls sfalse (vector nil) no_environ (pos 0) start).0
    ≡ returned (pos 42)
unfolding cmd_spawn
spawn_parent = refl

abbrev after_redirect : Process (Unit {0})
after_redirect = (fds_redirect no_files no_text at_zero (vector out_to_file) false start).1

out_fails :
    fds_redirect no_files no_text at_zero (vector out_to_file) false start ≡ (pos 2, after_redirect)
unfolding fds_redirect
out_fails = refl

cmd_exec_redirect_ignored_example :
    (cmd_exec no_files no_text at_zero ls sfalse (vector out_to_file) no_environ start).0
    ≡ executing ((codes "ls" ++ (0 ∷ [])) ∷ [])
unfolding vector_to_c_argz
cmd_exec_redirect_ignored_example =
    cmd_exec_redirect_ignored no_files no_text at_zero ls (vector out_to_file) no_environ start
      after_redirect 1 (codes "ls" ++ (0 ∷ [])) [] [] refl refl out_fails (λ c w h. ground arith)

-- The parent of a child that has the pid 2, the number of ENOENT.
abbrev forks_two : Kernel (Unit {0})
forks_two fork w = (ok 2 0, w)
forks_two c w = (ok 0 0, w)

all_but_open : (c : Call) (w : Unit {0}) → is_open c ≡ false → is_failure (no_files c w).0 ≡ false
all_but_open c w h = ground arith

no_open : (c : Call) (w : Unit {0}) → is_open c ≡ true → (no_files c w).0 ≡ fail 2
no_open c w h = ground arith

fork_pid_redirect_failed_example :
    ((fork_pid no_files no_text at_zero (vector out_to_file) (negsuc 0) start).0 ≡ pos 2)
    × ((fork_pid forks_two no_text at_zero (vector out_to_file) (negsuc 0) start).0 ≡ pos 2)
unfolding direction_to_open_flags target_of
fork_pid_redirect_failed_example =
    fork_pid_redirect_failed forks_two no_files no_text at_zero (fixnum (pos 1)) (char b'>') to_file
      sfalse nil (negsuc 0) start 1 0o1101 1 (codes "f" ++ (0 ∷ [])) refl refl refl refl (λ w. refl)
      (λ w. refl) all_but_open no_open

fork_pid-redirected_example :
    (fork_pid table_kernel no_text at_zero (vector out_to_file) (pos 0) shell).1.world
    ≡ redirected table_kernel table_kernel-IsTable out_to_file false on_terminal
unfolding fork_pid signals_setdefault fds_redirect
fork_pid-redirected_example =
    fork_pid-redirected table_kernel no_text at_zero table_kernel-IsTable table_kernel-HasErrnos
      out_to_file (pos 0) shell refl refl

-- What `strchr` does not see is no slash of the program's name.
slash_behind_zero : contains_slash (97 ∷ 0 ∷ b'/' ∷ 0 ∷ []) ≡ false
slash_behind_zero = refl
