-- ===== src/Posix/Fd/Pipes.antt =====
-- posix/posix.c: pipes and pairs of sockets.
use schemesh.Base.{Bool, ◌&&◌, if◌then◌else◌}
use schemesh.Base.Int.{ℤ, pos, eq_ℤ}
use schemesh.Scheme.{Ptr, fixnum, pair, is_truish}
use schemesh.Posix.{
  M, Kernel, Call, close, set_cloexec, pipe, socketpair, call, call_word, c_errno, return, is_neg,
  ◌>>=◌, ◌>>◌,
}

module _ {W : Type 0} (kernel : Kernel W) where
  -- What follows `pipe` and `socketpair`: close-on-exec as asked for, or both fds closed.
  unfoldable pub flag_second : Bool → ℤ → ℤ → M W ℤ
  flag_second close_on_exec err fd =
      if eq_ℤ err (pos 0) && close_on_exec then call kernel (set_cloexec fd) else return err

  unfoldable pub pair_or_close : ℤ → ℤ → ℤ → M W Ptr
  pair_or_close err fd1 fd2 =
      if eq_ℤ err (pos 0) then return (pair (fixnum fd1) (fixnum fd2)) else (do
        err' ← c_errno
        call kernel (close fd1)
        call kernel (close fd2)
        return (fixnum err'))

  unfoldable pub flag_both : Ptr → Ptr → ℤ → ℤ → M W ℤ
  unfolding flag_second
  flag_both close_on_exec1 close_on_exec2 fd1 fd2 = do
    err ← (if is_truish close_on_exec1 then call kernel (set_cloexec fd1) else return (pos 0))
    flag_second (is_truish close_on_exec2) err fd2

  unfoldable pub flag_fds : Ptr → Ptr → ℤ → ℤ → M W Ptr
  unfolding flag_both pair_or_close
  flag_fds close_on_exec1 close_on_exec2 fd1 fd2 = do
    err ← flag_both close_on_exec1 close_on_exec2 fd1 fd2
    pair_or_close err fd1 fd2

  unfoldable pub open_fds : Call → Ptr → Ptr → M W Ptr
  unfolding flag_fds
  open_fds c close_on_exec1 close_on_exec2 = do
    (fd1, fd2) ← call_word kernel c
    if is_neg fd1
        then (c_errno >>= λ err. return (fixnum err))
        else flag_fds close_on_exec1 close_on_exec2 fd1 (pos fd2)

  unfoldable pub open_pipe_fds : Ptr → Ptr → M W Ptr
  unfolding open_fds
  open_pipe_fds read_fd_close_on_exec write_fd_close_on_exec =
      open_fds pipe read_fd_close_on_exec write_fd_close_on_exec

  unfoldable pub open_socketpair_fds : Ptr → Ptr → M W Ptr
  unfolding open_fds
  open_socketpair_fds fd1_close_on_exec fd2_close_on_exec =
      open_fds socketpair fd1_close_on_exec fd2_close_on_exec
