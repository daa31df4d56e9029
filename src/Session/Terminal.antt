-- ===== src/Session/Terminal.antt =====
-- The terminal is given back to the group that had it, whatever happened in between.
use schemesh.Base.{ℕ, ◌≡◌, refl, ◌∙◌, ap, false, ◌∷◌, List}
use schemesh.Base.Int.{pos}
use schemesh.Scheme.{Ptr}
use schemesh.Posix.{Kernel, Process, tcsetpgrp, is_neg}
use schemesh.Posix.Calls.{call-trace}
use schemesh.Posix.Keeps.{Keeps, Keeps-trans}
use schemesh.Startup.{tty_quit}
use schemesh.Session.{
  Step, Reach, here, next, closes, closes_list, dups, dups2, seeks, unblocks, writes, reads, opens,
  reads_u8, writes_u8, selects, pipes, socketpairs, redirects, changes_dir, makes_dir, deletes,
  renames, asks_type, kills, asks_euid, asks_pid, asks_pgid, forks, execs, spawns, waits, raises,
  defaults, blocks, handles_sigwinch, restores_sigwinch, asks_max, asks_foreground, sets_foreground,
  swaps_foreground, asks_job_control, changes_job_control,
}
use schemesh.Posix.Keeps.Files.{
  fd_close-IsKeeping, fd_dup-IsKeeping, fd_dup2-IsKeeping, fd_close_list-IsKeeping,
  fd_seek-IsKeeping, fd_setnonblock-IsKeeping, fd_read_u8-IsKeeping, fd_write_u8-IsKeeping,
  fd_select-IsKeeping, open_pipe_fds-IsKeeping, open_socketpair_fds-IsKeeping,
}
use schemesh.Posix.Keeps.Bytes.{fd_write-IsKeeping, open_file_fd-IsKeeping, fd_read-IsKeeping}
use schemesh.Posix.Keeps.Commands.{fd_redirect-IsKeeping}
use schemesh.Posix.Keeps.Spawn.{
  c_chdir-IsKeeping, fork_pid-IsKeeping, cmd_exec-IsKeeping, cmd_spawn-IsKeeping,
}
use schemesh.Posix.Keeps.Jobs.{
  pid_wait-IsKeeping, signal_setdefault-IsKeeping, thread_signal_raise-IsKeeping,
  thread_signals_block_most-IsKeeping, pgid_foreground_get-IsKeeping, pgid_foreground_set-IsKeeping,
  pgid_foreground_cas-IsKeeping, job_control_available-IsKeeping, job_control_change-IsKeeping,
}
use schemesh.Startup.Keeps.{
  fd_open_max-IsKeeping, signal_init_sigwinch-IsKeeping, signal_restore_sigwinch-IsKeeping,
}
use schemesh.Paths.Files.{
  c_mkdir-IsKeeping, file_delete-IsKeeping, file_rename-IsKeeping, file_type-IsKeeping,
  pid_kill-IsKeeping, euid_get-IsKeeping, pid_get-IsKeeping, pgid_get-IsKeeping,
}

module _ {W : Type 0} (kernel : Kernel W) (strerror : ℕ → List ℕ) (address : Ptr → ℕ) where
  -- Each call keeps the terminal's fd, and its first process group once it is known.
  pub Step-Keeps : {p q : Process W} → Step kernel strerror address p q → Keeps p q
  Step-Keeps {p} (closes fd) = (fd_close-IsKeeping kernel fd).keeps p
  Step-Keeps {p} (closes_list fd_list) = (fd_close_list-IsKeeping kernel fd_list).keeps p
  Step-Keeps {p} (dups fd) = (fd_dup-IsKeeping kernel fd).keeps p
  Step-Keeps {p} (dups2 old_fd new_fd) = (fd_dup2-IsKeeping kernel old_fd new_fd).keeps p
  Step-Keeps {p} (seeks calls fd offset from) =
      (fd_seek-IsKeeping kernel calls fd offset from).keeps p
  Step-Keeps {p} (unblocks calls fd) = (fd_setnonblock-IsKeeping kernel calls fd).keeps p
  Step-Keeps {p} (writes fd x start end) = (fd_write-IsKeeping kernel fd x start end).keeps p
  Step-Keeps {p} (reads got_bytes fd x start end) =
      (fd_read-IsKeeping kernel got_bytes fd x start end).keeps p
  Step-Keeps {p} (opens path mode create truncate append) =
      (open_file_fd-IsKeeping kernel path mode create truncate append).keeps p
  Step-Keeps {p} (reads_u8 fd) = (fd_read_u8-IsKeeping kernel fd).keeps p
  Step-Keeps {p} (writes_u8 fd byte) = (fd_write_u8-IsKeeping kernel fd byte).keeps p
  Step-Keeps {p} (selects fd rw_mask timeout) =
      (fd_select-IsKeeping kernel fd rw_mask timeout).keeps p
  Step-Keeps {p} (pipes close1 close2) = (open_pipe_fds-IsKeeping kernel close1 close2).keeps p
  Step-Keeps {p} (socketpairs close1 close2) =
      (open_socketpair_fds-IsKeeping kernel close1 close2).keeps p
  Step-Keeps {p} (redirects from_fd ch to close_on_exec) =
      (fd_redirect-IsKeeping kernel strerror address from_fd ch to close_on_exec).keeps p
  Step-Keeps {p} (changes_dir dir) = (c_chdir-IsKeeping kernel strerror address dir).keeps p
  Step-Keeps {p} (makes_dir dir mode) = (c_mkdir-IsKeeping kernel dir mode).keeps p
  Step-Keeps {p} (deletes name) = (file_delete-IsKeeping kernel name).keeps p
  Step-Keeps {p} (renames old_name new_name) =
      (file_rename-IsKeeping kernel old_name new_name).keeps p
  Step-Keeps {p} (asks_type path keep_symlinks) =
      (file_type-IsKeeping kernel path keep_symlinks).keeps p
  Step-Keeps {p} (kills pid sig pauses) = (pid_kill-IsKeeping kernel pid sig pauses).keeps p
  Step-Keeps {p} asks_euid = (euid_get-IsKeeping kernel).keeps p
  Step-Keeps {p} asks_pid = (pid_get-IsKeeping kernel).keeps p
  Step-Keeps {p} (asks_pgid pid) = (pgid_get-IsKeeping kernel pid).keeps p
  Step-Keeps {p} (forks v pgid) = (fork_pid-IsKeeping kernel strerror address v pgid).keeps p
  Step-Keeps {p} (execs cmdline dir v environ) =
      (cmd_exec-IsKeeping kernel strerror address cmdline dir v environ).keeps p
  Step-Keeps {p} (spawns cmdline dir v environ pgid) =
      (cmd_spawn-IsKeeping kernel strerror address cmdline dir v environ pgid).keeps p
  Step-Keeps {p} (waits pid may_block) = (pid_wait-IsKeeping kernel pid may_block).keeps p
  Step-Keeps {p} (raises sig unset) = (thread_signal_raise-IsKeeping kernel sig unset).keeps p
  Step-Keeps {p} (defaults sig) = (signal_setdefault-IsKeeping kernel sig).keeps p
  Step-Keeps {p} blocks = (thread_signals_block_most-IsKeeping kernel).keeps p
  Step-Keeps {p} (handles_sigwinch handler_of) =
      (signal_init_sigwinch-IsKeeping kernel strerror handler_of).keeps p
  Step-Keeps {p} (restores_sigwinch saved) =
      (signal_restore_sigwinch-IsKeeping kernel strerror saved).keeps p
  Step-Keeps {p} asks_max = (fd_open_max-IsKeeping kernel strerror).keeps p
  Step-Keeps {p} asks_foreground = (pgid_foreground_get-IsKeeping kernel).keeps p
  Step-Keeps {p} (sets_foreground pgid) = (pgid_foreground_set-IsKeeping kernel pgid).keeps p
  Step-Keeps {p} (swaps_foreground old new) = (pgid_foreground_cas-IsKeeping kernel old new).keeps p
  Step-Keeps {p} asks_job_control = (job_control_available-IsKeeping kernel).keeps p
  Step-Keeps {p} (changes_job_control rounds enable) =
      (job_control_change-IsKeeping kernel rounds enable).keeps p

  -- So do all calls together, in any order and with any arguments.
  pub Reach-Keeps : {p q : Process W} → Reach kernel strerror address p q → Keeps p q
  Reach-Keeps {p} here = (refl, λ n. refl)
  Reach-Keeps {p} {q} (next {q = m} run step) =
      Keeps-trans p m q (Reach-Keeps run) (Step-Keeps step)

  tty_quit-trace :
      (q : Process W)
      → is_neg q.tty_fd ≡ false
      → is_neg q.tty_pgid ≡ false
      → (tty_quit kernel strerror q).1.trace ≡ tcsetpgrp q.tty_fd q.tty_pgid ∷ q.trace
  unfolding tty_quit
  tty_quit-trace q f g = rw (tty_quit, f, g) (call-trace kernel (tcsetpgrp q.tty_fd q.tty_pgid) q)

  -- A process with the terminal's fd and the group that it found in the foreground at first gives the
  -- terminal back to that group when it quits, after any calls of the registered functions.
  pub tty_quit_gives_back :
      {p q : Process W} (fd pgid : ℕ)
      → p.tty_fd ≡ pos fd
      → p.tty_pgid ≡ pos pgid
      → Reach kernel strerror address p q
      → (tty_quit kernel strerror q).1.trace ≡ tcsetpgrp (pos fd) (pos pgid) ∷ q.trace
  tty_quit_gives_back {p} {q} fd pgid h k run =
      let (same_fd, same_pgid) = Reach-Keeps run in
      let f : q.tty_fd ≡ pos fd = same_fd ∙ h in
      let g : q.tty_pgid ≡ pos pgid = same_pgid (rw k refl) ∙ k in
      tty_quit-trace q (rw f refl) (rw g refl)
      ∙ ap (λ x. tcsetpgrp x q.tty_pgid ∷ q.trace) f
      ∙ ap (λ x. tcsetpgrp (pos fd) x ∷ q.trace) g
