-- ===== src/Posix/Wait/Status.antt =====
-- What `c_pid_wait` reports.
use schemesh.Base.{
  ℕ, suc, ◌≡◌, refl, ◌+◌, ◌*◌, ◌/◌, ◌^◌, ◌<◌, Bool, true, false, some, ◌∷◌, arith, if◌then◌else◌,
  ◌⊎◌,
}
use schemesh.Base.Bits.{bit_and_low}
use schemesh.Base.Int.{ℤ, pos}
use schemesh.Scheme.{fixnum, pair}
use schemesh.Posix.{fail, eintr, Kernel, Process, waitpid, ok}
use schemesh.Posix.Wait.{wait_result, pid_wait}

-- How a child changed its status, and the 16-bit word that says so.
pub data Change : Type 0 where
  exited : ℕ → Change
  killed : ℕ → Change
  stopped : ℕ → Change
  resumed : Change

abbrev pub IsChange : Change → Type 0
IsChange (exited code) = code < 256
IsChange (killed sig) = (0 < sig) × (sig < 127)
IsChange (stopped sig) = (0 < sig) × (sig < 128)
IsChange resumed = Unit

-- With or without the flag 0x80 of a core dump.
abbrev pub word : Change → Bool → ℕ
word (exited code) core = code * 256
word (killed sig) core = sig + (if core then 128 else 0)
word (stopped sig) core = sig * 256 + 127
word resumed core = 0xFFFF

abbrev pub flag : Change → ℕ
flag (exited code) = code
flag (killed sig) = 256 + sig
flag (stopped sig) = 512 + sig
flag resumed = 768

-- Each change is reported as the documented flag: the exit status, 256 + the signal that killed, 512
-- + the signal that stopped, or 768.
pub wait_result_lem :
    (c : Change) (core : Bool) → IsChange c → wait_result (word c core) ≡ some (flag c)
unfolding wait_result
wait_result_lem (exited code) core h =
    ground (arith, bit_and_low 7 (code * 256), bit_and_low 8 (code * 256 / 2 ^ 8))
wait_result_lem (killed sig) true h = ground (arith, bit_and_low 7 (sig + 128))
wait_result_lem (killed sig) false h = ground (arith, bit_and_low 7 (sig + 0))
wait_result_lem (stopped sig) core h = ground (
  arith,
  bit_and_low 7 (sig * 256 + 127),
  bit_and_low 8 (sig * 256 + 127),
  bit_and_low 8 ((sig * 256 + 127) / 2 ^ 8),
)
wait_result_lem resumed core h = refl

-- Different changes are reported by different flags.
pub flag_injective : (c d : Change) → IsChange c → IsChange d → flag c ≡ flag d → c ≡ d
flag_injective c d h k e = ground arith

module _ {W : Type 0} (kernel : Kernel W) where
  -- Where the first waitpid gives a child and the word for its change, the result is the pair of
  -- its pid and the flag of the change: the exit status, 256 + the signal that killed, 512 + the
  -- signal that stopped, or 768.
  pub pid_wait_changed :
      (pid : ℤ) (may_block : Bool) (p : Process W) (child : ℕ) (c : Change) (core : Bool)
      → IsChange c
      → (kernel (waitpid pid may_block) p.world).0 ≡ ok (suc child) (word c core)
      → (pid_wait kernel pid may_block p).0
        ≡ pair (fixnum (pos (suc child))) (fixnum (pos (flag c)))
  unfolding pid_wait
  pid_wait_changed pid may_block p child c core h e = ground (arith, wait_result_lem c core h)

  -- waitpid is called once, or, only if that was interrupted, once more without blocking.
  pub pid_wait_calls :
      (pid : ℤ) (may_block : Bool) (p : Process W)
      → let q = (pid_wait kernel pid may_block p).1 in
        (q.trace ≡ waitpid pid may_block ∷ p.trace)
        ⊎ ((q.trace ≡ waitpid pid false ∷ waitpid pid may_block ∷ p.trace)
            × ((kernel (waitpid pid may_block) p.world).0 ≡ fail eintr))
  unfolding pid_wait
  pid_wait_calls pid may_block p = ground arith
