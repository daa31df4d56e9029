-- ===== src/Posix/Examples.antt =====
-- Kernels, processes and redirections for the tests of the modules about posix/.
use schemesh.Base.{ℕ, List, [], ◌∷◌, ◌++◌}
use schemesh.Base.Int.{pos, negsuc}
use schemesh.Base.Text.{codes}
use schemesh.Scheme.{Ptr, Ptrs, bytevector, fixnum, char, nil, cons, sfalse}
use schemesh.Posix.{Kernel, Process, ok, fail, open_file, enoent, fork, setpgid}

-- Files cannot be opened; an opened one would have the fd 5. All other calls succeed.
abbrev pub no_files : Kernel (Unit {0})
no_files (open_file name flags) w = (fail enoent, w)
no_files c w = (ok 0 0, w)

abbrev pub all_files : Kernel (Unit {0})
all_files (open_file name flags) w = (ok 5 0, w)
all_files c w = (ok 0 0, w)

abbrev pub no_text : ℕ → List ℕ
no_text e = []

abbrev pub at_zero : Ptr → ℕ
at_zero p = 0

abbrev pub start : Process (Unit {0})
start = record {
  world = tt;
  errno = 0;
  tty_fd = negsuc 0;
  tty_pgid = negsuc 0;
  environ = [];
  trace = [];
}

-- The path "f", and the redirections of fd 1 and fd 2 to it.
abbrev pub to_file : Ptr
to_file = bytevector (codes "f" ++ (0 ∷ []))

abbrev pub out_to_file : Ptrs
out_to_file = cons (fixnum (pos 1)) (cons (char b'>') (cons to_file (cons sfalse nil)))

abbrev pub err_to_file : Ptrs
err_to_file = cons (fixnum (pos 2)) (cons (char b'>') (cons to_file (cons sfalse nil)))

-- The parent's side of a fork; the child is in no process group that can be changed.
abbrev pub forks : Kernel (Unit {0})
forks fork w = (ok 42 0, w)
forks (setpgid pid pgid) w = (fail 1, w)
forks c w = (ok 0 0, w)
