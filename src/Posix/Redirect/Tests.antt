-- ===== src/Posix/Redirect/Tests.antt =====
-- posix/posix.c, redirections: runs, and the theorems at concrete inputs.
use schemesh.Base.{some, none, ◌≡◌, refl, false, [], ◌∷◌, ◌++◌}
use schemesh.Base.Int.{pos}
use schemesh.Base.Text.{codes}
use schemesh.Scheme.{Ptrs, nil, cons, sfalse, fixnum, char, vector}
use schemesh.Posix.{close, dup2, open_file}
use schemesh.Posix.Examples.{no_files, all_files, no_text, at_zero, start, to_file, out_to_file}
use schemesh.Posix.Redirect.{ptr_to_hex, fd_redirect, fds_redirect, target_of}
use schemesh.Posix.Redirect.Refines.{redirected, fds_redirect-redirected}
use schemesh.Posix.Redirect.Frame.{is_fd, fds_redirect-frame}
use schemesh.Posix.Redirect.Files.{
  table_kernel, table_kernel-IsTable, table_kernel-HasErrnos, on_terminal, shell,
}
use schemesh.Posix.Redirect.Results.{fd_redirect_unopened, fd_redirect_valid, Reported, ◌++ₚ◌}

hex_beef : ptr_to_hex 0xBEEF ≡ codes "BEEF"
unfolding ptr_to_hex
hex_beef = refl

-- `> f`: open for writing, create and truncate, then move the fd to 1.
redirect_out : fds_redirect all_files no_text at_zero (vector out_to_file) false start ≡ (
  pos 0,
  record start {
    trace = close (pos 5) ∷ dup2 (pos 5) (pos 1) ∷ open_file (codes "f" ++ (0 ∷ [])) 0o1101 ∷ [];
  },
)
unfolding fds_redirect
redirect_out = refl

fd_redirect_unopened_example :
    (fd_redirect no_files no_text at_zero (fixnum (pos 1)) (char b'>') to_file false start).0
    ≡ pos 2
unfolding fd_redirect
fd_redirect_unopened_example =
    fd_redirect_unopened no_files no_text at_zero (fixnum (pos 1)) (char b'>') to_file false start 1
      0o1101 2 (codes "f" ++ (0 ∷ [])) refl refl refl refl

fd_redirect_valid_example :
    Reported
      (target_of to_file)
      (fd_redirect no_files no_text at_zero (fixnum (pos 1)) (char b'>') to_file false start).0
unfolding fd_redirect
fd_redirect_valid_example =
    fd_redirect_valid no_files no_text at_zero (fixnum (pos 1)) (char b'>') to_file false start 1
      0o1101 refl refl

-- The file stands at the fd 1, and the fd 5 it was opened with is free again.
redirected_files :
    let files =
      (fds_redirect table_kernel no_text at_zero (vector out_to_file) false shell).1.world in
    (files (pos 1) ≡ some (codes "f" ++ (0 ∷ []), 0o1101))
    × (files (pos 5) ≡ none)
    × (files (pos 2) ≡ on_terminal (pos 2))
unfolding fds_redirect
redirected_files = (refl, refl, refl)

fds_redirect-redirected_example :
    (fds_redirect table_kernel no_text at_zero (vector out_to_file) false shell).1.world
    ≡ redirected table_kernel table_kernel-IsTable out_to_file false on_terminal
unfolding fds_redirect
fds_redirect-redirected_example =
    fds_redirect-redirected table_kernel no_text at_zero table_kernel-IsTable table_kernel-HasErrnos
      out_to_file false shell refl

-- The second redirection, of the fd 2 to the closed fd 9, fails: the first one stays.
abbrev out_then_closed : Ptrs
out_then_closed =
    out_to_file
    ++ₚ cons (fixnum (pos 2)) (cons (char b'>') (cons (fixnum (pos 9)) (cons sfalse nil)))

half_redirected :
    let (err, q) = fds_redirect table_kernel no_text at_zero (vector out_then_closed) false shell in
    (err ≡ pos 1)
    × (q.world (pos 1) ≡ some (codes "f" ++ (0 ∷ []), 0o1101))
    × (q.world (pos 2) ≡ on_terminal (pos 2))
unfolding fds_redirect
half_redirected = (refl, refl, refl)

fds_redirect-frame_example :
    (fds_redirect table_kernel no_text at_zero (vector out_then_closed) false shell).1.world (pos 5)
    ≡ on_terminal (pos 5)
unfolding is_fd
fds_redirect-frame_example =
    fds_redirect-frame table_kernel no_text at_zero table_kernel-IsTable table_kernel-HasErrnos
      out_then_closed false shell (pos 5) refl
