-- ===== src/Posix/Fd/Tests.antt =====
-- posix/posix.c, file descriptors: runs, and the theorems at concrete inputs.
use schemesh.Base.{
  ℕ, suc, min, ◌≡◌, refl, true, false, some, List, [], ◌∷◌, arith, length, get_elem?,
}
use schemesh.Base.Int.{pos, negsuc, neg}
use schemesh.Scheme.{Ptr, sfalse, strue, snil, fixnum, bytevector, pair}
use schemesh.Posix.{Kernel, Process, read, ok, fail, pipe, lseek, set_cloexec, eintr}
use schemesh.Posix.Examples.{start, all_files}
use schemesh.Posix.Fd.Reading.{contents, IsReading, fd_read_keeps}
use schemesh.Posix.Fd.{fd_read, fd_close_list, select_mask, open_flags}
use schemesh.Posix.Fd.Pipes.{open_pipe_fds}

-- The state counts the interruptions that are left for lseek; an fd cannot be flagged.
abbrev interrupting : Kernel ℕ
interrupting (lseek fd offset whence) (suc n) = (fail eintr, n)
interrupting (lseek fd offset whence) n = (ok 100 0, n)
interrupting pipe n = (ok 3 4, n)
interrupting (set_cloexec fd) n = (fail 9, n)
interrupting c n = (ok 0 0, n)

abbrev twice : Process ℕ
twice = record {
  world = 2;
  errno = 0;
  tty_fd = negsuc 0;
  tty_pgid = negsuc 0;
  environ = [];
  trace = [];
}

abbrev three_fds : Ptr
three_fds = pair (fixnum (pos 5)) (pair strue (pair (fixnum (pos 6)) snil))

close_with_error : (fd_close_list all_files three_fds start).0 ≡ neg 22
unfolding fd_close_list
close_with_error = refl

pipe_unflagged : (open_pipe_fds interrupting strue sfalse twice).0 ≡ fixnum (neg 9)
unfolding open_pipe_fds
pipe_unflagged = refl

-- O_WRONLY, O_CREAT and O_APPEND
append_flags : open_flags 1 true false true ≡ 0o2101
unfolding open_flags
append_flags = refl

hang_up : select_mask 16 ≡ 1
unfolding select_mask
hang_up = refl

abbrev four_bytes : List ℕ
four_bytes = 10 ∷ 20 ∷ 30 ∷ 40 ∷ []

-- Two bytes can be read, 7 and 8.
abbrev two_bytes : Kernel (Unit {0})
two_bytes (read fd n) w = (ok (min 2 n) 0, w)
two_bytes c w = (ok 0 0, w)

abbrev seven_eight : Unit {0} → List ℕ
seven_eight w = 7 ∷ 8 ∷ []

two_bytes-IsReading : IsReading two_bytes seven_eight
two_bytes-IsReading fd n w r word h = ground arith

-- Between positions 1 and 4 there is space for three bytes.
read_two :
    (fd_read two_bytes seven_eight
      (pos 0)
      (bytevector (1 ∷ 2 ∷ 3 ∷ 4 ∷ 5 ∷ []))
      (pos 1)
      (pos 4)
      start).0
    ≡ (fixnum (pos 2), bytevector (1 ∷ 7 ∷ 8 ∷ 4 ∷ 5 ∷ []))
unfolding fd_read
read_two = refl

fd_read_keeps_example :
    let b =
      contents
        (fd_read two_bytes seven_eight
          (pos 0)
          (bytevector (1 ∷ 2 ∷ 3 ∷ 4 ∷ 5 ∷ []))
          (pos 1)
          (pos 4)
          start).0.1 in
    (length b ≡ 5) × (get_elem? b 4 ≡ some 5)
fd_read_keeps_example =
    fd_read_keeps two_bytes seven_eight (pos 0) (1 ∷ 2 ∷ 3 ∷ 4 ∷ 5 ∷ []) (pos 1) (pos 4) 4 start
      two_bytes-IsReading refl
