-- ===== src/Session.antt =====
-- The life of the process behind its start: Scheme code calls the C functions of posix/posix.c and
-- posix/signal.h that are registered for it, in any order and with any arguments, until it quits.
pub mod Terminal
pub mod First
mod Tests
use schemesh.Base.{ℕ, Bool, List}
use schemesh.Base.Int.{ℤ}
use schemesh.Scheme.{Ptr}
use schemesh.Posix.{Kernel, Process, Handler}
use schemesh.Posix.Redirect.{fd_redirect}
use schemesh.Paths.{
  c_mkdir, file_delete, file_rename, file_type, pid_kill, euid_get, pid_get, pgid_get,
}
use schemesh.Startup.{fd_open_max, signal_init_sigwinch, signal_restore_sigwinch}
use schemesh.Posix.Spawn.{c_chdir, fork_pid, cmd_exec, cmd_spawn}
use schemesh.Posix.Wait.{pid_wait}
use schemesh.Posix.Signals.{signal_setdefault, thread_signal_raise, thread_signals_block_most}
use schemesh.Posix.JobControl.{
  pgid_foreground_get, pgid_foreground_set, pgid_foreground_cas, job_control_available,
  job_control_change,
}
use schemesh.Posix.Fd.{
  fd_read, fd_close, fd_close_list, fd_dup, fd_dup2, fd_seek, fd_setnonblock, fd_write, fd_read_u8,
  fd_write_u8, fd_select, open_file_fd,
}
use schemesh.Posix.Fd.Pipes.{open_pipe_fds, open_socketpair_fds}

module _ {W : Type 0} (kernel : Kernel W) (strerror : ℕ → List ℕ) (address : Ptr → ℕ) where
  -- A call of a registered function, with its arguments. The numbers that bound a loop are those of
  -- its model.
  pub data Step (p : Process W) : Process W → Type 0 where
    closes : (fd : ℤ) → Step p (fd_close kernel fd p).1
    closes_list : (fd_list : Ptr) → Step p (fd_close_list kernel fd_list p).1
    dups : (fd : ℤ) → Step p (fd_dup kernel fd p).1
    dups2 : (old_fd new_fd : ℤ) → Step p (fd_dup2 kernel old_fd new_fd p).1
    seeks : (calls : ℕ) (fd offset from : ℤ) → Step p (fd_seek kernel calls fd offset from p).1
    unblocks : (calls : ℕ) (fd : ℤ) → Step p (fd_setnonblock kernel calls fd p).1
    writes : (fd : ℤ) (x : Ptr) (start end : ℤ) → Step p (fd_write kernel fd x start end p).1
    reads :
        (got_bytes : W → List ℕ) (fd : ℤ) (x : Ptr) (start end : ℤ)
        → Step p (fd_read kernel got_bytes fd x start end p).1
    opens :
        (path : Ptr) (mode : ℕ) (create truncate append : Bool)
        → Step p (open_file_fd kernel path mode create truncate append p).1
    reads_u8 : (fd : ℤ) → Step p (fd_read_u8 kernel fd p).1
    writes_u8 : (fd byte : ℤ) → Step p (fd_write_u8 kernel fd byte p).1
    selects :
        (fd : ℤ) (rw_mask : ℕ) (timeout : ℤ) → Step p (fd_select kernel fd rw_mask timeout p).1
    pipes : (close1 close2 : Ptr) → Step p (open_pipe_fds kernel close1 close2 p).1
    socketpairs : (close1 close2 : Ptr) → Step p (open_socketpair_fds kernel close1 close2 p).1
    redirects :
        (from_fd ch to : Ptr) (close_on_exec : Bool)
        → Step p (fd_redirect kernel strerror address from_fd ch to close_on_exec p).1
    changes_dir : (dir : Ptr) → Step p (c_chdir kernel strerror address dir p).1
    makes_dir : (dir : Ptr) (mode : ℤ) → Step p (c_mkdir kernel dir mode p).1
    deletes : (name : Ptr) → Step p (file_delete kernel name p).1
    renames : (old_name new_name : Ptr) → Step p (file_rename kernel old_name new_name p).1
    asks_type :
        (path : Ptr) (keep_symlinks : Bool) → Step p (file_type kernel path keep_symlinks p).1
    kills : (pid : ℤ) (sig : ℕ) (pauses : Bool) → Step p (pid_kill kernel pid sig pauses p).1
    asks_euid : Step p (euid_get kernel p).1
    asks_pid : Step p (pid_get kernel p).1
    asks_pgid : (pid : ℤ) → Step p (pgid_get kernel pid p).1
    forks : (v : Ptr) (pgid : ℤ) → Step p (fork_pid kernel strerror address v pgid p).1
    execs :
        (cmdline dir v environ : Ptr)
        → Step p (cmd_exec kernel strerror address cmdline dir v environ p).1
    spawns :
        (cmdline dir v environ : Ptr) (pgid : ℤ)
        → Step p (cmd_spawn kernel strerror address cmdline dir v environ pgid p).1
    waits : (pid : ℤ) (may_block : Bool) → Step p (pid_wait kernel pid may_block p).1
    raises : (sig : ℕ) (unset : Bool) → Step p (thread_signal_raise kernel sig unset p).1
    defaults : (sig : ℕ) → Step p (signal_setdefault kernel sig p).1
    blocks : Step p (thread_signals_block_most kernel p).1
    handles_sigwinch :
        (handler_of : ℕ → Handler) → Step p (signal_init_sigwinch kernel strerror handler_of p).1
    restores_sigwinch :
        (saved : Handler) → Step p (signal_restore_sigwinch kernel strerror saved p).1
    asks_max : Step p (fd_open_max kernel strerror p).1
    asks_foreground : Step p (pgid_foreground_get kernel p).1
    sets_foreground : (pgid : ℤ) → Step p (pgid_foreground_set kernel pgid p).1
    swaps_foreground : (old new : ℤ) → Step p (pgid_foreground_cas kernel old new p).1
    asks_job_control : Step p (job_control_available kernel p).1
    changes_job_control :
        (rounds : ℕ) (enable : ℤ) → Step p (job_control_change kernel rounds enable p).1

  pub data Reach (p : Process W) : Process W → Type 0 where
    here : Reach p p
    next : {q r : Process W} → Reach p q → Step q r → Reach p r
