-- ===== src/Posix/Keeps/Commands.antt =====
-- Redirections, commands, waiting, signals and job control keep the terminal, but that job control
-- remembers its process group.
use schemesh.Base.{ℕ, ◌==◌, bit_and, Bool, List}
use schemesh.Base.Int.{ℤ, pos, eq_ℤ}
use schemesh.Scheme.{
  Ptr, Ptrs, sfalse, strue, snil, fixnum, char, string, bytevector, symbol, pair, vector, nil, cons,
}
use schemesh.Posix.{Kernel}
use schemesh.Posix.Keeps.{
  IsKeeping, keep_rules, if-IsKeeping, bind-IsKeeping, option-IsKeeping, return-IsKeeping,
}
use schemesh.Posix.Redirect.{
  target, count, write_c_errno, write_path_c_errno, write_command_not_found,
  write_invalid_redirection, close_and_fail, flag_close_on_exec, dup2_close_on_exec, redirect_to_fd,
  move_fd, redirect_to_path, redirect_to, fd_redirect, fds_loop, fds_redirect, Target, closed,
  other_fd, path, invalid, fd_of, flags_of, target_of,
}

module _ {W : Type 0} (kernel : Kernel W) (strerror : ℕ → List ℕ) (address : Ptr → ℕ) where
  write_c_errno-IsKeeping : (err : ℤ) → IsKeeping (write_c_errno kernel strerror address err)
  unfolding write_c_errno
  write_c_errno-IsKeeping err = search keep_rules depth 12

  pub write_path_c_errno-IsKeeping :
      (name : List ℕ) (err : ℤ) (suffix : List ℕ)
      → IsKeeping (write_path_c_errno kernel strerror address name err suffix)
  unfolding write_path_c_errno
  write_path_c_errno-IsKeeping name err suffix = search keep_rules depth 12

  pub write_command_not_found-IsKeeping :
      (name : List ℕ) → IsKeeping (write_command_not_found kernel strerror address name)
  unfolding write_command_not_found
  write_command_not_found-IsKeeping name = search keep_rules depth 12

  write_invalid_redirection-IsKeeping :
      (label : List ℕ) (value : Ptr)
      → IsKeeping (write_invalid_redirection kernel strerror address label value)
  unfolding write_invalid_redirection
  write_invalid_redirection-IsKeeping label value = search keep_rules depth 12

  dup2_close_on_exec-IsKeeping :
      (old new : ℤ) (flag : Bool)
      → IsKeeping (dup2_close_on_exec kernel strerror address old new flag)
  unfolding dup2_close_on_exec flag_close_on_exec close_and_fail
  dup2_close_on_exec-IsKeeping old new flag = search keep_rules depth 12

  move_fd-IsKeeping :
      (temp_fd : ℤ) (fd : ℕ) (flag : Bool)
      → IsKeeping (move_fd kernel strerror address temp_fd fd flag)
  unfolding move_fd
  move_fd-IsKeeping temp_fd fd flag = search (keep_rules, dup2_close_on_exec-IsKeeping) depth 12

  redirect_to_path-IsKeeping :
      (fd flags : ℕ) (name : List ℕ) (flag : Bool)
      → IsKeeping (redirect_to_path kernel strerror address fd flags name flag)
  unfolding redirect_to_path
  redirect_to_path-IsKeeping fd flags name flag =
      search (keep_rules, move_fd-IsKeeping, write_path_c_errno-IsKeeping) depth 12

  redirect_to-IsKeeping :
      (to : Target) (fd flags : ℕ) (p : Ptr) (flag : Bool)
      → IsKeeping (redirect_to kernel strerror address to fd flags p flag)
  unfolding redirect_to redirect_to_fd
  redirect_to-IsKeeping closed fd flags p flag = search keep_rules
  redirect_to-IsKeeping (other_fd n) fd flags p flag =
      search (keep_rules, dup2_close_on_exec-IsKeeping, write_c_errno-IsKeeping)
  redirect_to-IsKeeping (path name) fd flags p flag = redirect_to_path-IsKeeping fd flags name flag
  redirect_to-IsKeeping invalid fd flags p flag = write_invalid_redirection-IsKeeping _ p

  pub fd_redirect-IsKeeping :
      (from_fd ch to : Ptr) (flag : Bool)
      → IsKeeping (fd_redirect kernel strerror address from_fd ch to flag)
  unfolding fd_redirect
  fd_redirect-IsKeeping from_fd ch to flag =
      option-IsKeeping (fd_of from_fd) (write_invalid_redirection-IsKeeping _ from_fd) (λ fd.
        option-IsKeeping (flags_of ch) (write_invalid_redirection-IsKeeping _ ch)
          (λ flags. redirect_to-IsKeeping (target_of to) fd flags to flag))

  fds_loop-IsKeeping :
      (xs : Ptrs) (flag : Bool) → IsKeeping (fds_loop kernel strerror address xs flag)
  unfolding fds_loop
  fds_loop-IsKeeping (cons a (cons b (cons c (cons d rest)))) flag =
      bind-IsKeeping (fd_redirect-IsKeeping a b (target c d) flag) (λ err.
        if-IsKeeping (eq_ℤ err (pos 0)) (fds_loop-IsKeeping rest flag) (return-IsKeeping err))
  fds_loop-IsKeeping nil flag = return-IsKeeping (pos 0)
  fds_loop-IsKeeping (cons a nil) flag = return-IsKeeping (pos 0)
  fds_loop-IsKeeping (cons a (cons b nil)) flag = return-IsKeeping (pos 0)
  fds_loop-IsKeeping (cons a (cons b (cons c nil))) flag = return-IsKeeping (pos 0)

  pub fds_redirect-IsKeeping :
      (v : Ptr) (flag : Bool) → IsKeeping (fds_redirect kernel strerror address v flag)
  unfolding fds_redirect
  fds_redirect-IsKeeping (vector xs) flag =
      if-IsKeeping (bit_and (count xs) 3 == 0) (fds_loop-IsKeeping xs flag)
        (write_invalid_redirection-IsKeeping _ (vector xs))
  fds_redirect-IsKeeping (fixnum n) flag = write_invalid_redirection-IsKeeping _ (fixnum n)
  fds_redirect-IsKeeping sfalse flag = write_invalid_redirection-IsKeeping _ sfalse
  fds_redirect-IsKeeping strue flag = write_invalid_redirection-IsKeeping _ strue
  fds_redirect-IsKeeping snil flag = write_invalid_redirection-IsKeeping _ snil
  fds_redirect-IsKeeping (char c) flag = write_invalid_redirection-IsKeeping _ (char c)
  fds_redirect-IsKeeping (string s) flag = write_invalid_redirection-IsKeeping _ (string s)
  fds_redirect-IsKeeping (bytevector b) flag = write_invalid_redirection-IsKeeping _ (bytevector b)
  fds_redirect-IsKeeping (symbol s) flag = write_invalid_redirection-IsKeeping _ (symbol s)
  fds_redirect-IsKeeping (pair a b) flag = write_invalid_redirection-IsKeeping _ (pair a b)
