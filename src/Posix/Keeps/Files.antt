-- ===== src/Posix/Keeps/Files.antt =====
-- The operations on file descriptors keep the terminal.
use schemesh.Base.{ℕ, bit_or, zero, suc, Bool, none, some}
use schemesh.Base.Int.{ℤ, pos, negsuc, neg, eq_ℤ, pos_part}
use schemesh.Scheme.{
  Ptr, sfalse, strue, snil, fixnum, char, string, bytevector, symbol, pair, vector,
}
use schemesh.Posix.{Kernel, Call, eintr, get_flags, set_flags, pipe, socketpair, is_neg}
use schemesh.Posix.Keeps.{
  IsKeeping, keep_rules, if-IsKeeping, bind-IsKeeping, option-IsKeeping, return-IsKeeping,
  c_errno-IsKeeping, call-IsKeeping,
}
use schemesh.Posix.Fd.{
  fd_close, fd_dup, fd_dup2, close_elem, close_loop, fd_close_list, retry, fd_seek, fd_setnonblock,
  fd_read_u8, fd_write_u8, fd_select, o_nonblock, is_success, is_zero,
}
use schemesh.Posix.Fd.Pipes.{
  flag_second, pair_or_close, flag_both, flag_fds, open_fds, open_pipe_fds, open_socketpair_fds,
}

module _ {W : Type 0} (kernel : Kernel W) where
  pub fd_close-IsKeeping : (fd : ℤ) → IsKeeping (fd_close kernel fd)
  unfolding fd_close
  fd_close-IsKeeping fd = search keep_rules

  pub fd_dup-IsKeeping : (fd : ℤ) → IsKeeping (fd_dup kernel fd)
  unfolding fd_dup
  fd_dup-IsKeeping fd = search keep_rules

  pub fd_dup2-IsKeeping : (old new : ℤ) → IsKeeping (fd_dup2 kernel old new)
  unfolding fd_dup2
  fd_dup2-IsKeeping old new = search keep_rules

  close_elem-IsKeeping : (x : Ptr) (ret : ℤ) → IsKeeping (close_elem kernel x ret)
  unfolding close_elem
  close_elem-IsKeeping (fixnum n) ret = search keep_rules
  close_elem-IsKeeping sfalse ret = search keep_rules
  close_elem-IsKeeping strue ret = search keep_rules
  close_elem-IsKeeping snil ret = search keep_rules
  close_elem-IsKeeping (char c) ret = search keep_rules
  close_elem-IsKeeping (string s) ret = search keep_rules
  close_elem-IsKeeping (bytevector b) ret = search keep_rules
  close_elem-IsKeeping (symbol s) ret = search keep_rules
  close_elem-IsKeeping (pair a b) ret = search keep_rules
  close_elem-IsKeeping (vector v) ret = search keep_rules

  close_loop-IsKeeping : (x : Ptr) (ret : ℤ) → IsKeeping (close_loop kernel x ret)
  unfolding close_loop
  close_loop-IsKeeping (pair x rest) ret =
      bind-IsKeeping (close_elem-IsKeeping x ret) (close_loop-IsKeeping rest)
  close_loop-IsKeeping (fixnum n) ret = search keep_rules
  close_loop-IsKeeping sfalse ret = search keep_rules
  close_loop-IsKeeping strue ret = search keep_rules
  close_loop-IsKeeping snil ret = search keep_rules
  close_loop-IsKeeping (char c) ret = search keep_rules
  close_loop-IsKeeping (string s) ret = search keep_rules
  close_loop-IsKeeping (bytevector b) ret = search keep_rules
  close_loop-IsKeeping (symbol s) ret = search keep_rules
  close_loop-IsKeeping (vector v) ret = search keep_rules

  pub fd_close_list-IsKeeping : (fd_list : Ptr) → IsKeeping (fd_close_list kernel fd_list)
  unfolding fd_close_list
  fd_close_list-IsKeeping fd_list = close_loop-IsKeeping fd_list (pos 0)

  retry-IsKeeping : (done : ℤ → Bool) (calls : ℕ) (c : Call) → IsKeeping (retry kernel done calls c)
  unfolding retry
  retry-IsKeeping done zero c = search keep_rules
  retry-IsKeeping done (suc calls) c = bind-IsKeeping (call-IsKeeping kernel c) (λ ret.
      if-IsKeeping (done ret) (return-IsKeeping (some ret)) (
        bind-IsKeeping c_errno-IsKeeping (λ err.
          if-IsKeeping (eq_ℤ err (neg eintr)) (retry-IsKeeping done calls c)
            (return-IsKeeping (some err)))))

  pub fd_seek-IsKeeping :
      (calls : ℕ) (fd offset from : ℤ) → IsKeeping (fd_seek kernel calls fd offset from)
  unfolding fd_seek
  fd_seek-IsKeeping calls fd offset (pos zero) = search (keep_rules, retry-IsKeeping)
  fd_seek-IsKeeping calls fd offset (pos (suc zero)) = search (keep_rules, retry-IsKeeping)
  fd_seek-IsKeeping calls fd offset (pos (suc (suc zero))) = search (keep_rules, retry-IsKeeping)
  fd_seek-IsKeeping calls fd offset (pos (suc (suc (suc n)))) = search keep_rules
  fd_seek-IsKeeping calls fd offset (negsuc n) = search keep_rules

  pub fd_setnonblock-IsKeeping : (calls : ℕ) (fd : ℤ) → IsKeeping (fd_setnonblock kernel calls fd)
  unfolding fd_setnonblock
  fd_setnonblock-IsKeeping calls fd =
      bind-IsKeeping (retry-IsKeeping is_success calls (get_flags fd)) (λ r.
        option-IsKeeping r (return-IsKeeping none) (λ flags.
          if-IsKeeping (is_neg flags) (return-IsKeeping (some flags))
            (retry-IsKeeping is_zero calls (set_flags fd (bit_or (pos_part flags) o_nonblock)))))

  pub fd_read_u8-IsKeeping : (fd : ℤ) → IsKeeping (fd_read_u8 kernel fd)
  unfolding fd_read_u8
  fd_read_u8-IsKeeping fd = search keep_rules

  pub fd_write_u8-IsKeeping : (fd byte : ℤ) → IsKeeping (fd_write_u8 kernel fd byte)
  unfolding fd_write_u8
  fd_write_u8-IsKeeping fd byte = search keep_rules

  pub fd_select-IsKeeping :
      (fd : ℤ) (rw_mask : ℕ) (timeout : ℤ) → IsKeeping (fd_select kernel fd rw_mask timeout)
  unfolding fd_select
  fd_select-IsKeeping fd rw_mask timeout = search keep_rules

  pub open_fds-IsKeeping : (c : Call) (a b : Ptr) → IsKeeping (open_fds kernel c a b)
  unfolding open_fds flag_fds flag_both flag_second pair_or_close
  open_fds-IsKeeping c a b = search keep_rules depth 12

  pub open_pipe_fds-IsKeeping : (a b : Ptr) → IsKeeping (open_pipe_fds kernel a b)
  unfolding open_pipe_fds
  open_pipe_fds-IsKeeping a b = open_fds-IsKeeping pipe a b

  pub open_socketpair_fds-IsKeeping : (a b : Ptr) → IsKeeping (open_socketpair_fds kernel a b)
  unfolding open_socketpair_fds
  open_socketpair_fds-IsKeeping a b = open_fds-IsKeeping socketpair a b
