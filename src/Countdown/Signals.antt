-- ===== src/Countdown/Signals.antt =====
-- The signals that arrive during a countdown, against its suspensions.
use schemesh.Base.{ℕ, zero, suc, ◌+◌, ◌≡◌, false, if◌then◌else◌, arith, inl, inr, Bool-cases}
use schemesh.Countdown.{Timespec, is_left, Machine, Run, again, nap, check_sigtstp, turn, countdown}
use schemesh.Countdown.Sleep.{Turn-cases, enough_left, ended_of, again_of}

-- A machine that counts the naps during which a SIGTSTP arrived, and the suspensions.
pub record IsCounted (W : Type 0) (machine : Machine W) : Type 0 where
  pub arrivals : W → ℕ
  pub suspensions : W → ℕ
  pub count_nap :
      (i : Timespec) (w : W)
      → let r = machine.clock_nanosleep i w in
        (arrivals r.3 ≡ arrivals w + (if r.2 then 1 else 0)) × (suspensions r.3 ≡ suspensions w)
  pub count_suspend :
      (w : W)
      → let v = machine.suspend w in
        (arrivals v ≡ arrivals w) × (suspensions v ≡ suc (suspensions w))

module _ {W : Type 0} (machine : Machine W) (c : IsCounted W machine) where
  -- A signal that is stored, and for which the process was not suspended yet.
  abbrev pub pending : Run W → ℕ
  pending r = if r.sigtstp_received then 1 else 0

  -- Behind r, the process q was suspended for each signal but a pending one.
  abbrev pub Accounts : Run W → Run W → Type 0
  Accounts r q =
      c.suspensions q.world + pending q + c.arrivals r.world
      ≡ c.arrivals q.world + c.suspensions r.world

  turn-Accounts :
      (i : Timespec) (r : Run W) → r.sigtstp_received ≡ false → Accounts r (turn machine i r).1
  unfolding turn nap check_sigtstp
  turn-Accounts i r h =
      let n = c.count_nap i r.world in
      let s = c.count_suspend (machine.clock_nanosleep i r.world).3 in ground arith

  turn_clears :
      (i left : Timespec) (r : Run W)
      → (turn machine i r).0 ≡ again left
      → (turn machine i r).1.sigtstp_received ≡ false
  unfolding turn nap check_sigtstp
  turn_clears i left r h = ground arith

  -- If no signal is pending at the start, then however the countdown ends, the process was suspended
  -- once for each nap during which a SIGTSTP arrived, but for the last of them where its flag is still
  -- set at the end.
  pub countdown-Accounts :
      (naps : ℕ) (i : Timespec) (r : Run W)
      → r.sigtstp_received ≡ false
      → Accounts r (countdown machine naps i r).1
  unfolding countdown
  countdown-Accounts zero i r h = ground arith
  countdown-Accounts (suc naps) i r h = elim (Bool-cases (is_left i)) [
    | inr b ↦ rw (enough_left machine i (suc naps) r b) (ground arith)
    | inl b ↦ elim (Turn-cases (turn machine i r).0) [
      | inl (e, k) ↦ rw (ended_of machine i naps e r b k) (turn-Accounts i r h)
      | inr (left, k) ↦
          let q = (turn machine i r).1 in
          let t = turn-Accounts i r h in
          let z = turn_clears i left r k in
          let u = countdown-Accounts naps left q z in
          rw (again_of machine i left naps r b k) (ground (arith, t, u, z))
    ]
  ]
