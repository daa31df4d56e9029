-- ===== src/Posix/Fd.antt =====
-- posix/posix.c: file descriptors.
pub mod Io
pub mod Pipes
pub mod Reading
mod Tests
use schemesh.Base.{
  ℕ, zero, suc, bit_and, bit_or, ◌+◌, ◌-◌, ◌++◌, Bool, true, false, ◌&&◌, ◌||◌, not, Option, none,
  some, List, [], ◌∷◌, ◌==◌, leb, if◌then◌else◌, length, take, drop,
}
use schemesh.Base.Int.{ℤ, pos, negsuc, pos_part, neg, eq_ℤ, leb_ℤ}
use schemesh.Scheme.{Ptr, sfalse, strue, snil, fixnum, bytevector, pair, is_truish}
use schemesh.Posix.{
  M, Kernel, Process, Call, close, dup, dup2, set_cloexec, read, read_byte, get_flags, set_flags,
  open_file, write, lseek, poll, call, call_word, c_errno, c_errno_set, return, is_neg, einval,
  eintr, ◌>>=◌, ◌>>◌,
}
use schemesh.Bytevector.{low_byte}
use schemesh.Posix.Redirect.{ends_in_zero, o_creat, o_trunc, o_append}

abbrev pub o_nonblock : ℕ
o_nonblock = 0o4000

-- `flag == 0 ? 0 : value`
abbrev pub flag : Bool → ℕ → ℕ
flag b value = if b then value else 0

abbrev pub pollin : ℕ
pollin = 1

abbrev pub pollout : ℕ
pollout = 4

-- The mask of `c_fd_select` for revents: POLLIN or POLLHUP, POLLOUT, POLLERR or POLLNVAL.
unfoldable pub select_mask : ℕ → ℕ
select_mask revents =
    bit_or
      (bit_or (flag (not (bit_and revents 17 == 0)) 1)
        (flag (not (bit_and revents pollout == 0)) 2))
      (flag (not (bit_and revents 40 == 0)) 4)

-- `flag_read_write` and the three other flags of `c_open_file_fd`
unfoldable pub open_flags : ℕ → Bool → Bool → Bool → ℕ
open_flags flag_read_write create truncate append =
    bit_or
      (bit_or
        (bit_or (if flag_read_write == 0 then 0 else if flag_read_write == 1 then 1 else 2)
          (flag create o_creat))
        (flag truncate o_trunc))
      (flag append o_append)

-- `start < 0 || end < 0 || start > end` or `end > len` is no range.
abbrev pub is_range : List ℕ → ℤ → ℤ → Bool
is_range bytes start end =
    leb_ℤ (pos 0) start && leb_ℤ (pos 0) end && leb_ℤ start end && leb_ℤ end (pos (length bytes))

abbrev pub range_of : List ℕ → ℤ → ℤ → List ℕ
range_of bytes start end = take (pos_part end - pos_part start) (drop (pos_part start) bytes)

-- `ret >= 0` and `ret == 0`
abbrev pub is_success : ℤ → Bool
is_success ret = not (is_neg ret)

abbrev pub is_zero : ℤ → Bool
is_zero ret = eq_ℤ ret (pos 0)

-- The bytes that were read are stored behind the first `start` ones.
abbrev pub store : List ℕ → ℕ → List ℕ → List ℕ
store bytes start got = take start bytes ++ (got ++ drop (start + length got) bytes)

module _ {W : Type 0} (kernel : Kernel W) where
  -- The value of a call, or -errno.
  abbrev pub checked : Call → M W ℤ
  checked c = do ret ← call kernel c; if is_neg ret then c_errno else return ret

  unfoldable pub fd_close : ℤ → M W ℤ
  fd_close fd = checked (close fd)

  unfoldable pub fd_dup : ℤ → M W ℤ
  fd_dup old_fd = checked (dup old_fd)

  unfoldable pub fd_dup2 : ℤ → ℤ → M W ℤ
  fd_dup2 old_fd new_fd = checked (dup2 old_fd new_fd)

  -- One element of the list, where `ret` is the first error so far.
  unfoldable pub close_elem : Ptr → ℤ → M W ℤ
  close_elem (fixnum fd) ret = do
    r ← call kernel (close fd)
    if not (eq_ℤ r (pos 0)) && eq_ℤ ret (pos 0) then c_errno else return ret
  close_elem _ ret = return (if eq_ℤ ret (pos 0) then neg einval else ret)

  unfoldable pub close_loop : Ptr → ℤ → M W ℤ
  unfolding close_elem
  close_loop (pair elem rest) ret = close_elem elem ret >>= λ ret'. close_loop rest ret'
  close_loop snil ret = return ret
  close_loop _ ret = return (if eq_ℤ ret (pos 0) then neg einval else ret)

  unfoldable pub fd_close_list : Ptr → M W ℤ
  unfolding close_loop
  fd_close_list fd_list = close_loop fd_list (pos 0)

  -- `while (!done(ret = call)) if (errno != EINTR) return c_errno();` with fuel for the calls: none is
  -- a loop that is still interrupted.
  unfoldable pub retry : (ℤ → Bool) → ℕ → Call → M W (Option ℤ)
  retry done zero c = return none
  retry done (suc calls) c = do
    ret ← call kernel c
    if done ret
        then return (some ret)
        else (c_errno >>= λ err.
            if eq_ℤ err (neg eintr) then retry done calls c else return (some err))

  unfoldable pub fd_seek : ℕ → ℤ → ℤ → ℤ → M W (Option ℤ)
  unfolding retry
  fd_seek calls fd offset (pos zero) = retry is_success calls (lseek fd offset 0)
  fd_seek calls fd offset (pos (suc zero)) = retry is_success calls (lseek fd offset 1)
  fd_seek calls fd offset (pos (suc (suc zero))) = retry is_success calls (lseek fd offset 2)
  fd_seek calls fd offset from = c_errno_set einval >>= λ err. return (some err)

  unfoldable pub fd_setnonblock : ℕ → ℤ → M W (Option ℤ)
  unfolding retry
  fd_setnonblock calls fd = retry is_success calls (get_flags fd) >>= λ r. elim r [
    | none ↦ return none
    | some flags ↦
        if is_neg flags
        then return (some flags)
        else retry is_zero calls (set_flags fd (bit_or (pos_part flags) o_nonblock))
  ]

  -- #t where the call was interrupted.
  abbrev pub interruptible : ℤ → M W Ptr
  interruptible n =
      if is_neg n
      then (c_errno >>= λ err. return (if eq_ℤ err (neg eintr) then strue else fixnum err))
      else return (fixnum n)

  unfoldable pub fd_write : ℤ → Ptr → ℤ → ℤ → M W Ptr
  fd_write fd (bytevector bytes) start end =
      if is_range bytes start end
      then (call kernel (write fd (range_of bytes start end)) >>= λ n. interruptible n)
      else (c_errno_set einval >>= λ err. return (fixnum err))
  fd_write fd _ start end = c_errno_set einval >>= λ err. return (fixnum err)

  -- The result and the new contents of the bytevector. `got_bytes` are the bytes of the last read, of
  -- which the result of `read` says how many there are.
  unfoldable pub store_read : (W → List ℕ) → List ℕ → ℕ → ℤ → M W (Ptr × Ptr)
  store_read got_bytes bytes start got_n p = (
    (fixnum got_n, bytevector (store bytes start (take (pos_part got_n) (got_bytes p.world)))),
    p,
  )

  unfoldable pub read_failed : List ℕ → M W (Ptr × Ptr)
  read_failed bytes = do
    err ← c_errno
    return (if eq_ℤ err (neg eintr) then strue else fixnum err, bytevector bytes)

  unfoldable pub fd_read : (W → List ℕ) → ℤ → Ptr → ℤ → ℤ → M W (Ptr × Ptr)
  unfolding store_read read_failed
  fd_read got_bytes fd (bytevector bytes) start end =
      if is_range bytes start end
      then (do
        got_n ← call kernel (read fd (pos_part end - pos_part start))
        if is_neg got_n
            then read_failed bytes
            else store_read got_bytes bytes (pos_part start) got_n)
      else (c_errno_set einval >>= λ err. return (fixnum err, bytevector bytes))
  fd_read got_bytes fd x start end = c_errno_set einval >>= λ err. return (fixnum err, x)

  unfoldable pub fd_read_u8 : ℤ → M W Ptr
  fd_read_u8 fd = do
    (n, byte) ← call_word kernel (read_byte fd)
    if eq_ℤ n (pos 1)
        then return (fixnum (pos byte))
        else if eq_ℤ n (pos 0)
        then return sfalse
        else (c_errno >>= λ err. return (if eq_ℤ err (neg eintr) then strue else fixnum err))

  unfoldable pub fd_write_u8 : ℤ → ℤ → M W Ptr
  fd_write_u8 fd byte = do
    n ← call kernel (write fd (low_byte byte ∷ []))
    if eq_ℤ n (pos 1)
        then return (fixnum (pos 0))
        else (c_errno >>= λ err. return (if eq_ℤ err (neg eintr) then strue else fixnum err))

  unfoldable pub fd_select : ℤ → ℕ → ℤ → M W ℤ
  unfolding select_mask
  fd_select fd rw_mask timeout_milliseconds = do
    let events =
        bit_or (flag (not (bit_and rw_mask 1 == 0)) pollin)
          (flag (not (bit_and rw_mask 2 == 0)) pollout)
    (err, revents) ← call_word kernel (poll fd events timeout_milliseconds)
    if is_neg err then c_errno else return (pos (select_mask revents))

  unfoldable pub open_file_fd : Ptr → ℕ → Bool → Bool → Bool → M W ℤ
  unfolding open_flags
  open_file_fd (bytevector path) flag_read_write create truncate append =
      if ends_in_zero path
      then checked (open_file path (open_flags flag_read_write create truncate append))
      else c_errno_set einval
  open_file_fd _ flag_read_write create truncate append = c_errno_set einval
