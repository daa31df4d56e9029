-- ===== src/JobStatus/Survives.antt =====
-- The status with which a process exits, as the shell that waits for it sees it: posix/status.ss in the
-- child, posix/posix.c and shell/scheduler.ss in the parent.
use schemesh.Base.{
  ℕ, suc, ◌+◌, ◌%◌, ◌≡◌, refl, ◌∙◌, sym, ap, ◌<◌, Bool, true, false, some, List, [], ◌∷◌, ◌==◌,
  arith, if◌then◌else◌, Bool-cases, inl, inr, ltb,
}
use schemesh.Base.Bits.{bit_and_low}
use schemesh.Base.Int.{ℤ, pos}
use schemesh.Scheme.{fixnum, symbol}
use schemesh.Posix.{
  Kernel, Process, Call, call, is_neg, waitpid, ok, sigaction, sig_dfl, pthread_sigmask,
  pthread_kill,
}
use schemesh.Posix.Spawn.{exited}
use schemesh.Posix.Calls.{call-trace}
use schemesh.Posix.Signals.{check_call}
use schemesh.Posix.Wait.{pid_wait}
use schemesh.Posix.Wait.Status.{Change, word, pid_wait_changed}
use schemesh.Paths.{c_exit}
use schemesh.JobStatus.{
  failed, killed, Status, void, status, Value, datum, c_exit_value, record_value, is_ok, value_byte,
  low_byte,
}
use schemesh.JobStatus.Names.{signal_name, signal_number, signal_number-signal_name}
use schemesh.JobStatus.Wait.{
  waited_status, pid_wait_result_to_status, exit_with_status, signal_raise, keeps_alive, name_value,
}

abbrev pub is_killed : Status → Bool
is_killed (status killed val) = true
is_killed _ = false

low_byte-lt : (i : ℤ) → low_byte i < 256
low_byte-lt i = ground arith

value_byte-lt : (v : Value) → value_byte v < 256
value_byte-lt (datum (fixnum i)) = low_byte-lt i
value_byte-lt _ = omega arith

c_exit_value-lt : (s : Status) → c_exit_value s < 256
unfolding c_exit_value
c_exit_value-lt s = ground (arith, value_byte-lt (record_value s))

-- 0 is the exit value of the ok statuses and of no other.
c_exit_value-zero : (s : Status) → (c_exit_value s == 0) ≡ is_ok s
unfolding c_exit_value
c_exit_value-zero s = ground arith

c_exit_lem : (v : ℕ) → v < 256 → c_exit (v % 256) ≡ exited v
unfolding c_exit
c_exit_lem v h = let e : v % 256 % 256 ≡ v = omega arith in ap exited (bit_and_low 8 (v % 256) ∙ e)

exit_status_lem :
    {W : Type 0} (kernel : Kernel W) (flush_raises : Bool) (s : Status) (p : Process W)
    → is_killed s ≡ false
    → (exit_with_status kernel flush_raises s p).0 ≡ exited (c_exit_value s)
unfolding exit_with_status
exit_status_lem kernel flush_raises (status killed val) p h = absurd (ground arith)
exit_status_lem kernel flush_raises s p h = c_exit_lem (c_exit_value s) (c_exit_value-lt s)

-- What the parent sees of an exit code.
code_status :
    (e : ℕ)
    → e < 256
    → pid_wait_result_to_status (fixnum (pos e))
      ≡ (if e == 0 then void else status failed (datum (fixnum (pos e))))
unfolding pid_wait_result_to_status
code_status e h = ground arith

-- What the parent sees of an exit.
code_seen :
    {W : Type 0} (kernel : Kernel W) (pid : ℤ) (may_block : Bool) (p : Process W) (child e : ℕ)
    (core : Bool)
    → e < 256
    → (kernel (waitpid pid may_block) p.world).0 ≡ ok (suc child) (word (Change.exited e) core)
    → waited_status (pid_wait kernel pid may_block p).0
      ≡ some (if e == 0 then void else status failed (datum (fixnum (pos e))))
unfolding waited_status
code_seen kernel pid may_block p child e core h k =
    rw (pid_wait_changed kernel pid may_block p child (Change.exited e) core h k)
      (ap some (code_status e h))

exited-injective : {a b : ℕ} → exited a ≡ exited b → a ≡ b
exited-injective h = cc

failed_code : (n : ℕ) → 0 < n → n < 256 → c_exit_value (status failed (datum (fixnum (pos n)))) ≡ n
unfolding c_exit_value
failed_code n h k = ground arith

killed_code :
    (n : ℕ) (name : List ℕ)
    → n < 127
    → signal_name n ≡ some name
    → pid_wait_result_to_status (fixnum (pos (256 + n))) ≡ status killed (datum (symbol name))
unfolding pid_wait_result_to_status
killed_code n name b e =
    let not_zero : (256 + n == 0) ≡ false = ground arith in
    let not_failed : ltb (256 + n) 256 ≡ false = ground arith in
    let is_signal : ltb (256 + n) 512 ≡ true = ground arith in
    let low : (256 + n) % 256 ≡ n = omega arith in
    rw (pid_wait_result_to_status, not_zero, not_failed, is_signal, low, name_value, e) refl

module _ {W : Type 0} (kernel : Kernel W) where
  check_call-trace : (c : Call) (p : Process W) → (check_call kernel c p).1.trace ≡ c ∷ p.trace
  unfolding check_call
  check_call-trace c p = elim (Bool-cases (is_neg (call kernel c p).0)) [
    | inl b ↦ rw (check_call, b) (call-trace kernel c p)
    | inr b ↦ rw (check_call, b) (call-trace kernel c p)
  ]

  -- The calls of `signal-raise` and their order.
  signal_raise-trace :
      (name : List ℕ) (n : ℕ) (p : Process W)
      → signal_number name ≡ some n
      → (signal_raise kernel name p).1.trace
        ≡ pthread_kill n ∷ pthread_sigmask false (n ∷ []) ∷ sigaction n sig_dfl ∷ p.trace
  unfolding signal_raise
  signal_raise-trace name n p e =
      let q = (check_call kernel (sigaction n sig_dfl) p).1 in
      let r = (check_call kernel (pthread_sigmask false (n ∷ [])) q).1 in
      let before = check_call-trace (pthread_sigmask false (n ∷ [])) q in
      let first = check_call-trace (sigaction n sig_dfl) p in
      rw (signal_raise, e)
        (check_call-trace (pthread_kill n) r
          ∙ ap (λ t. pthread_kill n ∷ t)
              (before ∙ ap (λ t. pthread_sigmask false (n ∷ []) ∷ t) first))

  dies_by_raising :
      (name : List ℕ) (n : ℕ) (p : Process W)
      → signal_number name ≡ some n
      → keeps_alive name ≡ false
      → (exit_with_status kernel false (status killed (datum (symbol name))) p).1.trace
        ≡ pthread_kill n ∷ pthread_sigmask false (n ∷ []) ∷ sigaction n sig_dfl ∷ p.trace
  unfolding exit_with_status
  dies_by_raising name n p e k = rw (exit_with_status, k) (signal_raise-trace name n p e)

  lived_on :
      (name : List ℕ) (n : ℕ) (p : Process W)
      → signal_number name ≡ some n
      → n < 127
      → (exit_with_status kernel false (status killed (datum (symbol name))) p).0 ≡ exited (128 + n)
  unfolding exit_with_status
  lived_on name n p e b = rw (exit_with_status, e) (c_exit_lem (128 + n) (omega arith))

  kill_seen :
      (name : List ℕ) (n : ℕ) (pid : ℤ) (may_block : Bool) (p : Process W) (child : ℕ) (core : Bool)
      → 0 < n
      → n < 127
      → signal_name n ≡ some name
      → (kernel (waitpid pid may_block) p.world).0 ≡ ok (suc child) (word (Change.killed n) core)
      → waited_status (pid_wait kernel pid may_block p).0
        ≡ some (status killed (datum (symbol name)))
  unfolding waited_status
  kill_seen name n pid may_block p child core a b e w =
      rw (pid_wait_changed kernel pid may_block p child (Change.killed n) core (a, b) w)
        (ap some (killed_code n name b e))

module _ {W V : Type 0} (child_kernel : Kernel W) (parent_kernel : Kernel V) where
  pub exit_with_status-pid_wait :
      (s : Status) (flush_raises : Bool) (p : Process W) (pid : ℤ) (may_block : Bool)
      (q : Process V) (child e : ℕ) (core : Bool)
      → is_killed s ≡ false
      → (exit_with_status child_kernel flush_raises s p).0 ≡ exited e
      → (parent_kernel (waitpid pid may_block) q.world).0
        ≡ ok (suc child) (word (Change.exited e) core)
      → (waited_status (pid_wait parent_kernel pid may_block q).0
          ≡ some (if is_ok s then void else status failed (datum (fixnum (pos e)))))
        × (e < 256)
        × ((e == 0) ≡ is_ok s)
  exit_with_status-pid_wait s flush_raises p pid may_block q child e core h k w =
      let same : c_exit_value s ≡ e =
        exited-injective (sym (exit_status_lem child_kernel flush_raises s p h) ∙ k) in
      let small : e < 256 = rw (← same) (c_exit_value-lt s) in
      let zero_code : (e == 0) ≡ is_ok s = rw (← same) (c_exit_value-zero s) in
      (
        code_seen parent_kernel pid may_block q child e core small w
            ∙ ap (λ b. some (if b then void else status failed (datum (fixnum (pos e))))) zero_code,
        small,
        zero_code,
      )

  -- A failed status with a number between 1 and 255 is seen by the parent as it is: the child exits
  -- with the number, whatever its flushes do.
  pub exit_with_status-failed :
      (n : ℕ) (flush_raises : Bool) (p : Process W) (pid : ℤ) (may_block : Bool) (q : Process V)
      (child e : ℕ) (core : Bool)
      → 0 < n
      → n < 256
      → (exit_with_status child_kernel flush_raises (status failed (datum (fixnum (pos n)))) p).0
        ≡ exited e
      → (parent_kernel (waitpid pid may_block) q.world).0
        ≡ ok (suc child) (word (Change.exited e) core)
      → waited_status (pid_wait parent_kernel pid may_block q).0
        ≡ some (status failed (datum (fixnum (pos n))))
  exit_with_status-failed n flush_raises p pid may_block q child e core h k x w =
      let s = status failed (datum (fixnum (pos n))) in
      let code : n ≡ e =
        sym (failed_code n h k)
        ∙ exited-injective (sym (exit_status_lem child_kernel flush_raises s p refl) ∙ x) in
      (exit_with_status-pid_wait s flush_raises p pid may_block q child e core refl x w).0
      ∙ ap (λ m. some (status failed (datum (fixnum (pos m))))) (sym code)

  -- A killed status, with a signal that is not one of those that stop or continue a process, and with
  -- flushes that do not raise: the process sets the signal's default handler, unblocks the signal and
  -- sends it to itself, and exits with 128 + its number if it lives on. A parent to whom the kernel says
  -- that this signal killed the child sees the status that the child exited with.
  pub exit_with_status-killed :
      (name : List ℕ) (n : ℕ) (p : Process W) (pid : ℤ) (may_block : Bool) (q : Process V)
      (child : ℕ) (core : Bool)
      → signal_number name ≡ some n
      → keeps_alive name ≡ false
      → (parent_kernel (waitpid pid may_block) q.world).0
        ≡ ok (suc child) (word (Change.killed n) core)
      → let s = status killed (datum (symbol name)) in
        let (end, r) = exit_with_status child_kernel false s p in
        (r.trace ≡ pthread_kill n ∷ pthread_sigmask false (n ∷ []) ∷ sigaction n sig_dfl ∷ p.trace)
        × (end ≡ exited (128 + n))
        × (waited_status (pid_wait parent_kernel pid may_block q).0 ≡ some s)
  exit_with_status-killed name n p pid may_block q child core e k w =
      let (above, below, named) = signal_number-signal_name name n e in
      (
        dies_by_raising child_kernel name n p e k,
        lived_on child_kernel name n p e below,
        kill_seen parent_kernel name n pid may_block q child core above below named w,
      )
