-- ===== src/Countdown.antt =====
-- utils/countdown.c, and `c_countdown` of posix/signal.h. The kernel's `clock_nanosleep` and what
-- suspends the process are the parameter `machine`, on a state of its own.
pub mod Sleep
pub mod Signals
mod Tests
use schemesh.Base.{
  ℕ, zero, suc, ◌+◌, ◌*◌, ◌/◌, ◌%◌, ◌^◌, Bool, true, false, not, ◌&&◌, ◌||◌, Option, none, some,
  ◌==◌, if◌then◌else◌,
}
use schemesh.Base.Int.{ℤ, pos, neg, ltb_ℤ, leb_ℤ, eq_ℤ}
use schemesh.Scheme.{Ptr, fixnum, pair}
use schemesh.Posix.{eintr, einval}

pub record Timespec : Type 0 where
  pub tv_sec : ℤ
  pub tv_nsec : ℤ

-- `tv_sec > 0 || (tv_sec == 0 && tv_nsec > 0)`
unfoldable pub is_left : Timespec → Bool
is_left t = ltb_ℤ (pos 0) t.tv_sec || (eq_ℤ t.tv_sec (pos 0) && ltb_ℤ (pos 0) t.tv_nsec)

-- What `clock_nanosleep` returns: its error, 0 for a nap that was not cut, and `left`; whether a
-- SIGTSTP arrived meanwhile; and the new state.
pub record Machine (W : Type 0) : Type 0 where
  pub clock_nanosleep : Timespec → W → ℕ × Timespec × Bool × W
  pub suspend : W → W

-- `c_sigtstp_received`, and whether its handler is set: if not, the action is SIG_DFL.
pub record Run (W : Type 0) : Type 0 where
  pub world : W
  pub sigtstp_received : Bool
  pub handled : Bool

-- What one round of the loop does: it returns, or goes on with the time that is left.
pub data Turn : Type 0 where
  ended : ℕ → Turn
  again : Timespec → Turn

abbrev pub sigtstp_sethandler : {W : Type 0} → Run W → Run W
sigtstp_sethandler r = record r { handled = true }

abbrev pub sigtstp_setdefault : {W : Type 0} → Run W → Run W
sigtstp_setdefault r = record r { handled = false }

module _ {W : Type 0} (machine : Machine W) where
  -- A SIGTSTP: the handler stores the flag, and SIG_DFL suspends the process until it is continued.
  abbrev pub sigtstp : Run W → Run W
  sigtstp r =
      if r.handled
      then record r { sigtstp_received = true }
      else record r { world = machine.suspend r.world }

  -- `clock_nanosleep`, and the signal that arrives during it.
  unfoldable pub nap : Timespec → Run W → ℕ × Timespec × Run W
  nap interval r =
      let (err, left, arrived, w) = machine.clock_nanosleep interval r.world in
      let q = record r { world = w } in (err, left, if arrived then sigtstp q else q)

  -- `if (atomic_exchange(&c_sigtstp_received, 0))`: raise the signal again, with SIG_DFL.
  unfoldable pub check_sigtstp : Run W → Run W
  check_sigtstp r =
      if r.sigtstp_received
      then sigtstp (sigtstp_setdefault (record r { sigtstp_received = false }))
      else record r { sigtstp_received = false }

  -- The message of `c_fail` is left out.
  unfoldable pub turn : Timespec → Run W → Turn × Run W
  unfolding nap check_sigtstp
  turn interval r =
      let (err, left, q) = nap interval (sigtstp_sethandler r) in
      if err == 0
      then (ended 0, q)
      else if not (err == eintr)
      then (ended err, q)
      else (again left, check_sigtstp q)

  -- Fuel for the naps; none where it does not suffice.
  unfoldable pub countdown : ℕ → Timespec → Run W → Option ℕ × Run W
  unfolding is_left turn
  countdown zero interval r = if is_left interval then (none, r) else (some 0, r)
  countdown (suc naps) interval r = elim (is_left interval) [
    | false ↦ (some 0, r)
    | true ↦ elim ((turn interval r).0) [
      | ended err ↦ (some err, (turn interval r).1)
      | again left ↦ countdown naps left (turn interval r).1
    ]
  ]

  -- `c_countdown` of posix/signal.h, with the new contents of the pair: the result, the pair, and the
  -- state of the machine. `Sinteger64_value` and `Sinteger32_value` are parameters.
  unfoldable pub countdown_pair : (Ptr → ℤ) → (Ptr → ℤ) → Ptr → W → ℤ × Ptr × W
  unfolding is_left
  countdown_pair integer64_value integer32_value (pair car cdr) w =
      let duration : Timespec = record {
        tv_sec = integer64_value car;
        tv_nsec = integer32_value cdr;
      } in
      if ltb_ℤ duration.tv_sec (pos 0)
        || (eq_ℤ duration.tv_sec (pos 0) && leb_ℤ duration.tv_nsec (pos 0))
      then (pos 0, pair car cdr, w)
      else let (err, left, arrived, v) = machine.clock_nanosleep duration w in
        if err == 0
        then (pos 0, pair car cdr, v)
        else if not (err == eintr)
        then (neg err, pair car cdr, v)
        else (pos 1, pair (fixnum left.tv_sec) (fixnum left.tv_nsec), v)
  countdown_pair integer64_value integer32_value p w = (neg einval, p, w)

-- The interval of `main` for a positive number of seconds that is m / 2^k, as each double is. The
-- rounding of the product and of the sum to doubles is left out: they are exact here.
unfoldable pub interval_of : ℕ → ℕ → Timespec
interval_of m k = record {
  tv_sec = pos (m / 2 ^ k);
  tv_nsec = pos ((2 ^ k + 2 * 10 ^ 9 * (m % 2 ^ k)) / 2 ^ suc k);
}

-- `main` behind `strtod`, which reads a double from the start of the argument and says whether it read
-- all of it. No or bad seconds end at once, and so does --help; the printed texts are left out.
unfoldable pub run : {W : Type 0} → Machine W → ℕ → ℕ × ℕ × Bool → Run W → Option ℕ × Run W
unfolding countdown interval_of
run machine naps (m, k, whole) r =
    if whole && not (m == 0) then countdown machine naps (interval_of m k) r else (some 0, r)
