-- ===== src/Posix/Keeps/Bytes.antt =====
-- The operations that move bytes, and open files, keep the terminal.
use schemesh.Base.{ℕ, ◌-◌, refl, if◌then◌else◌, Bool, List}
use schemesh.Base.Int.{ℤ, neg, eq_ℤ, pos_part}
use schemesh.Scheme.{
  Ptr, sfalse, strue, snil, fixnum, char, string, bytevector, symbol, pair, vector,
}
use schemesh.Posix.{Kernel, eintr, read, write, is_neg, einval, c_errno_set, return, ◌>>=◌}
use schemesh.Posix.Keeps.{
  IsKeeping, keep_rules, if-IsKeeping, bind-IsKeeping, return-IsKeeping, c_errno-IsKeeping,
  c_errno_set-IsKeeping, call-IsKeeping,
}
use schemesh.Posix.Redirect.{ends_in_zero}
use schemesh.Posix.Fd.{
  store_read, read_failed, fd_read, fd_write, open_file_fd, interruptible, is_range, range_of,
}

module _ {W : Type 0} (kernel : Kernel W) where
  interruptible-IsKeeping : (n : ℤ) → IsKeeping (interruptible kernel n)
  interruptible-IsKeeping n =
      if-IsKeeping (is_neg n)
        (bind-IsKeeping c_errno-IsKeeping
          (λ err. return-IsKeeping (if eq_ℤ err (neg eintr) then strue else fixnum err)))
        (return-IsKeeping (fixnum n))

  -- EINVAL is stored, and returned.
  einval-IsKeeping : IsKeeping {W = W} (c_errno_set einval >>= λ err. return (fixnum err))
  einval-IsKeeping =
      bind-IsKeeping (c_errno_set-IsKeeping einval) (λ err. return-IsKeeping (fixnum err))

  pub fd_write-IsKeeping :
      (fd : ℤ) (x : Ptr) (start end : ℤ) → IsKeeping (fd_write kernel fd x start end)
  unfolding fd_write
  fd_write-IsKeeping fd (bytevector bytes) start end =
      if-IsKeeping (is_range bytes start end)
        (bind-IsKeeping (call-IsKeeping kernel (write fd (range_of bytes start end)))
          interruptible-IsKeeping)
        einval-IsKeeping
  fd_write-IsKeeping fd (fixnum n) start end = einval-IsKeeping
  fd_write-IsKeeping fd sfalse start end = einval-IsKeeping
  fd_write-IsKeeping fd strue start end = einval-IsKeeping
  fd_write-IsKeeping fd snil start end = einval-IsKeeping
  fd_write-IsKeeping fd (char c) start end = einval-IsKeeping
  fd_write-IsKeeping fd (string s) start end = einval-IsKeeping
  fd_write-IsKeeping fd (symbol s) start end = einval-IsKeeping
  fd_write-IsKeeping fd (pair a b) start end = einval-IsKeeping
  fd_write-IsKeeping fd (vector v) start end = einval-IsKeeping

  pub open_file_fd-IsKeeping :
      (x : Ptr) (mode : ℕ) (create truncate append : Bool)
      → IsKeeping (open_file_fd kernel x mode create truncate append)
  unfolding open_file_fd
  open_file_fd-IsKeeping (bytevector path) mode create truncate append =
      if-IsKeeping (ends_in_zero path) (search keep_rules) (c_errno_set-IsKeeping einval)
  open_file_fd-IsKeeping (fixnum n) mode create truncate append = c_errno_set-IsKeeping einval
  open_file_fd-IsKeeping sfalse mode create truncate append = c_errno_set-IsKeeping einval
  open_file_fd-IsKeeping strue mode create truncate append = c_errno_set-IsKeeping einval
  open_file_fd-IsKeeping snil mode create truncate append = c_errno_set-IsKeeping einval
  open_file_fd-IsKeeping (char c) mode create truncate append = c_errno_set-IsKeeping einval
  open_file_fd-IsKeeping (string s) mode create truncate append = c_errno_set-IsKeeping einval
  open_file_fd-IsKeeping (symbol s) mode create truncate append = c_errno_set-IsKeeping einval
  open_file_fd-IsKeeping (pair a b) mode create truncate append = c_errno_set-IsKeeping einval
  open_file_fd-IsKeeping (vector v) mode create truncate append = c_errno_set-IsKeeping einval

  bad_range-IsKeeping :
      (x : Ptr)
      → IsKeeping {W = W} {A = Ptr × Ptr} (c_errno_set einval >>= λ err. return (fixnum err, x))
  bad_range-IsKeeping x =
      bind-IsKeeping (c_errno_set-IsKeeping einval) (λ err. return-IsKeeping (fixnum err, x))

  read_failed-IsKeeping : (bytes : List ℕ) → IsKeeping (read_failed kernel bytes)
  unfolding read_failed
  read_failed-IsKeeping bytes = bind-IsKeeping c_errno-IsKeeping (λ err.
      return-IsKeeping (if eq_ℤ err (neg eintr) then strue else fixnum err, bytevector bytes))

  store_read-IsKeeping :
      (got_bytes : W → List ℕ) (bytes : List ℕ) (start : ℕ) (n : ℤ)
      → IsKeeping (store_read kernel got_bytes bytes start n)
  unfolding store_read
  store_read-IsKeeping got_bytes bytes start n = record { keeps = λ p. (refl, λ k. refl) }

  pub fd_read-IsKeeping :
      (got_bytes : W → List ℕ) (fd : ℤ) (x : Ptr) (start end : ℤ)
      → IsKeeping (fd_read kernel got_bytes fd x start end)
  unfolding fd_read
  fd_read-IsKeeping got_bytes fd (bytevector bytes) start end =
      if-IsKeeping (is_range bytes start end)
        (bind-IsKeeping (call-IsKeeping kernel (read fd (pos_part end - pos_part start))) (λ n.
          if-IsKeeping (is_neg n) (read_failed-IsKeeping bytes)
            (store_read-IsKeeping got_bytes bytes (pos_part start) n)))
        (bad_range-IsKeeping (bytevector bytes))
  fd_read-IsKeeping got_bytes fd (fixnum n) start end = bad_range-IsKeeping (fixnum n)
  fd_read-IsKeeping got_bytes fd sfalse start end = bad_range-IsKeeping sfalse
  fd_read-IsKeeping got_bytes fd strue start end = bad_range-IsKeeping strue
  fd_read-IsKeeping got_bytes fd snil start end = bad_range-IsKeeping snil
  fd_read-IsKeeping got_bytes fd (char c) start end = bad_range-IsKeeping (char c)
  fd_read-IsKeeping got_bytes fd (string s) start end = bad_range-IsKeeping (string s)
  fd_read-IsKeeping got_bytes fd (symbol s) start end = bad_range-IsKeeping (symbol s)
  fd_read-IsKeeping got_bytes fd (pair a b) start end = bad_range-IsKeeping (pair a b)
  fd_read-IsKeeping got_bytes fd (vector v) start end = bad_range-IsKeeping (vector v)
