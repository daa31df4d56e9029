-- ===== src/Tty/Size.antt =====
-- The size of the terminal where the kernel does not know it.
use schemesh.Base.{ℕ, ◌≡◌, Option, List, arith, ◌<◌, ◌⊎◌}
use schemesh.Base.Int.{neg}
use schemesh.Scheme.{fixnum}
use schemesh.Posix.{einval}
use schemesh.Tty.{done, failed, tty_size}

-- If the kernel does not give the size, the result is its error, or -EINVAL where it gave none:
-- whatever COLUMNS and LINES are, they are not used.
pub tty_size_unknown :
    (strtoul : List ℕ → Option ℕ) (getenv : List ℕ → Option (List ℕ)) (col row e : ℕ)
    → 0 < e
    → (col ≡ 0) ⊎ (row ≡ 0)
    → (tty_size strtoul getenv (failed e) ≡ fixnum (neg e))
      × (tty_size strtoul getenv (done (col, row)) ≡ fixnum (neg einval))
unfolding tty_size
tty_size_unknown strtoul getenv col row e h k = (ground arith, ground arith)
