-- ===== src/Posix/Wait.antt =====
-- posix/posix.c: `c_pid_wait`, with the macros of <sys/wait.h> on a wait status of 16 bits.
pub mod Status
mod Tests
use schemesh.Base.{
  ℕ, zero, suc, ◌+◌, ◌/◌, ◌^◌, bit_and, Bool, true, false, ◌&&◌, ◌||◌, not, Option, none, some, ltb,
  ◌==◌, if◌then◌else◌,
}
use schemesh.Base.Int.{ℤ, pos, negsuc, neg, eq_ℤ}
use schemesh.Scheme.{Ptr, snil, fixnum, pair}
use schemesh.Posix.{
  M, Kernel, Process, Call, waitpid, call_word, c_errno, c_errno_set, return, is_neg, eintr, eagain,
  echild, einval, ◌>>=◌, ◌>>◌,
}

abbrev pub wexitstatus : ℕ → ℕ
wexitstatus w = bit_and (w / 2 ^ 8) 0xFF

abbrev pub wtermsig : ℕ → ℕ
wtermsig w = bit_and w 0x7F

-- WIFEXITED, WIFSIGNALED, WIFSTOPPED and WIFCONTINUED, in this order.
unfoldable pub wait_result : ℕ → Option ℕ
wait_result w =
    if wtermsig w == 0
    then some (wexitstatus w)
    else if ltb (wtermsig w) 0x7F
    then some (256 + wtermsig w)
    else if bit_and w 0xFF == 0x7F
    then some (512 + wexitstatus w)
    else if w == 0xFFFF
    then some 768
    else none

-- An error that only says that no child changed its status.
abbrev pub no_change : ℤ → Bool
no_change err = eq_ℤ err (neg eagain) || eq_ℤ err (neg eintr) || eq_ℤ err (neg echild)

module _ {W : Type 0} (kernel : Kernel W) where
  unfoldable pub report : ℤ → ℕ → M W Ptr
  unfolding wait_result
  report ret_pid wstatus = elim (wait_result wstatus) [
    | some result ↦ return (pair (fixnum ret_pid) (fixnum (pos result)))
    | none ↦ (do err ← c_errno_set einval; return (fixnum err))
  ]

  -- `again:`, with `retry_n` retries left.
  unfoldable pub wait_again : ℕ → ℤ → Bool → M W Ptr
  unfolding report
  wait_again zero pid may_block = do
    (ret_pid, wstatus) ← call_word kernel (waitpid pid may_block)
    if is_neg ret_pid
        then (c_errno >>= λ err. return (if no_change err then snil else fixnum err))
        else if eq_ℤ ret_pid (pos 0)
        then return snil
        else report ret_pid wstatus
  wait_again (suc retry_n) pid may_block = do
    (ret_pid, wstatus) ← call_word kernel (waitpid pid may_block)
    if is_neg ret_pid
        then (c_errno >>= λ err.
            if eq_ℤ err (neg eintr)
            then wait_again retry_n pid false
            else return (if no_change err then snil else fixnum err))
        else if eq_ℤ ret_pid (pos 0)
        then return snil
        else report ret_pid wstatus

  unfoldable pub pid_wait : ℤ → Bool → M W Ptr
  unfolding wait_again
  pid_wait pid may_block = wait_again 1 pid may_block
