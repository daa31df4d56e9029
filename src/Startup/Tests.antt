-- ===== src/Startup/Tests.antt =====
-- posix/posix.c, the start of the process: the theorem at a concrete input.
use schemesh.Base.{◌≡◌, refl, ◌⊎◌, ◌∷◌, true, arith}
use schemesh.Base.Int.{pos}
use schemesh.Posix.{
  Kernel, ok, open_max, sigaction, sigcont_handler, set_cloexec, dup2, HasErrnos, is_neg,
}
use schemesh.Posix.Signals.{sigcont}
use schemesh.Posix.Examples.{start, no_text}
use schemesh.Startup.{fd_open_max, register_c_functions_posix}
use schemesh.Startup.Terminal.{last_fd}
use schemesh.Startup.Register.{unblock, register_c_functions_posix_result}

abbrev booting : Kernel (Unit {0})
booting open_max w = (ok 256 0, w)
booting c w = (ok 0 0, w)

booting-HasErrnos : HasErrnos booting
booting-HasErrnos open_max w e h = absurd (ground arith)
booting-HasErrnos c w e h = absurd (ground arith)

last : last_fd booting no_text start ≡ pos 255
unfolding fd_open_max
last = refl

register_c_functions_posix_result_example :
    let (r, q) = register_c_functions_posix booting no_text start in
    let fd = last_fd booting no_text start in
    ((r ≡ pos 0)
      × (q.tty_fd ≡ fd)
      × (q.trace
          ≡ unblock
            ∷ sigaction sigcont sigcont_handler
            ∷ set_cloexec fd
            ∷ dup2 (pos 0) fd
            ∷ open_max
            ∷ start.trace))
    ⊎ (is_neg r ≡ true)
register_c_functions_posix_result_example =
    register_c_functions_posix_result booting no_text start booting-HasErrnos
