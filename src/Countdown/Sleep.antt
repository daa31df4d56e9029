-- ===== src/Countdown/Sleep.antt =====
-- The time that the countdowns sleep, and that they end.
use schemesh.Base.{
  ℕ, zero, suc, ◌+◌, ◌*◌, ◌≡◌, refl, ◌≤◌, ◌<◌, true, false, some, arith, inl, inr, ◌⊎◌, Bool-cases,
}
use schemesh.Base.Int.{pos, pos_part}
use schemesh.Posix.{eintr}
use schemesh.Countdown.{
  Timespec, is_left, Machine, Run, Turn, ended, again, nap, check_sigtstp, turn, countdown,
}

-- A time that is not negative, and its nanoseconds.
abbrev pub IsDuration : Timespec → Type 0
IsDuration t = (t.tv_sec ≡ pos (pos_part t.tv_sec)) × (t.tv_nsec ≡ pos (pos_part t.tv_nsec))

abbrev pub duration : Timespec → ℕ
duration t = 1000000000 * pos_part t.tv_sec + pos_part t.tv_nsec

-- A clock that counts the time the program runs, from which a suspension takes nothing: a nap that is
-- not cut takes at least its interval, and one that is cut says how much is left. Each signal costs
-- some of its patience.
pub record IsClock (W : Type 0) (machine : Machine W) : Type 0 where
  pub elapsed : W → ℕ
  pub patience : W → ℕ
  pub slept :
      (i : Timespec) (w : W)
      → (machine.clock_nanosleep i w).0 ≡ 0
      → elapsed w + duration i ≤ elapsed (machine.clock_nanosleep i w).3
  pub cut :
      (i : Timespec) (w : W)
      → (machine.clock_nanosleep i w).0 ≡ eintr
      → let r = machine.clock_nanosleep i w in
        IsDuration r.1
        × (elapsed w + duration i ≤ elapsed r.3 + duration r.1)
        × (patience r.3 < patience w)
  pub paused :
      (w : W)
      → (elapsed (machine.suspend w) ≡ elapsed w) × (patience (machine.suspend w) ≤ patience w)

nothing_left : (t : Timespec) → IsDuration t → is_left t ≡ false → duration t ≡ 0
unfolding is_left
nothing_left t h k = ground arith

pub Turn-cases : (t : Turn) → ((e : ℕ) × (t ≡ ended e)) ⊎ ((left : Timespec) × (t ≡ again left))
Turn-cases (ended e) = inl (e, refl)
Turn-cases (again left) = inr (left, refl)

module _ {W : Type 0} (machine : Machine W) where
  pub enough_left :
      (i : Timespec) (naps : ℕ) (r : Run W)
      → is_left i ≡ false
      → countdown machine naps i r ≡ (some 0, r)
  unfolding countdown
  enough_left i zero r h = rw (countdown, h) refl
  enough_left i (suc naps) r h = rw (countdown, h) refl

  pub ended_of :
      (i : Timespec) (naps e : ℕ) (r : Run W)
      → is_left i ≡ true
      → (turn machine i r).0 ≡ ended e
      → countdown machine (suc naps) i r ≡ (some e, (turn machine i r).1)
  unfolding countdown
  ended_of i naps e r h k = rw (countdown, h, k) refl

  pub again_of :
      (i left : Timespec) (naps : ℕ) (r : Run W)
      → is_left i ≡ true
      → (turn machine i r).0 ≡ again left
      → countdown machine (suc naps) i r ≡ countdown machine naps left (turn machine i r).1
  unfolding countdown
  again_of i left naps r h k = rw (countdown, h, k) refl

  none_lem :
      (i : Timespec) (r : Run W) → is_left i ≡ true → (countdown machine zero i r).0 ≡ some 0 → ⊥
  unfolding countdown
  none_lem i r h k = ground arith

module _ {W : Type 0} (machine : Machine W) (c : IsClock W machine) where
  turn_ended :
      (i : Timespec) (r : Run W)
      → (turn machine i r).0 ≡ ended 0
      → c.elapsed r.world + duration i ≤ c.elapsed (turn machine i r).1.world
  unfolding turn nap
  turn_ended i r h = let s = c.slept i r.world in ground arith

  turn_again :
      (i left : Timespec) (r : Run W)
      → (turn machine i r).0 ≡ again left
      → let q = (turn machine i r).1.world in
        IsDuration left
        × (c.elapsed r.world + duration i ≤ c.elapsed q + duration left)
        × (c.patience q < c.patience r.world)
  unfolding turn nap check_sigtstp
  turn_again i left r h =
      let s = c.cut i r.world in
      let p = c.paused (machine.clock_nanosleep i r.world).3 in ground arith

  -- If the countdown of a time that is not negative returns 0, the program has run for that time at
  -- least, not counting the time for which it was suspended.
  pub countdown_slept :
      (naps : ℕ) (i : Timespec) (r : Run W)
      → IsDuration i
      → (countdown machine naps i r).0 ≡ some 0
      → c.elapsed r.world + duration i ≤ c.elapsed (countdown machine naps i r).1.world
  countdown_slept naps i r d h = elim (Bool-cases (is_left i)) [
    | inr b ↦ let z = nothing_left i d b in rw (enough_left machine i naps r b) (omega (arith, z))
    | inl b ↦ slept_on naps i r b h
  ]
    where
      slept_on :
          (naps : ℕ) (i : Timespec) (r : Run W)
          → is_left i ≡ true
          → (countdown machine naps i r).0 ≡ some 0
          → c.elapsed r.world + duration i ≤ c.elapsed (countdown machine naps i r).1.world
      slept_on zero i r b h = absurd (none_lem machine i r b h)
      slept_on (suc naps) i r b h = elim (Turn-cases (turn machine i r).0) [
        | inl (e, k) ↦
            let s = ended_of machine i naps e r b k in
            let z : e ≡ 0 = ground (arith, s) in rw s (turn_ended i r (rw z at k))
        | inr (left, k) ↦
            let s = again_of machine i left naps r b k in
            let (d, t, p) = turn_again i left r k in
            let q = (turn machine i r).1 in
            let u : c.elapsed q.world + duration left
                ≤ c.elapsed (countdown machine naps left q).1.world =
              elim (Bool-cases (is_left left)) [
                | inr f ↦
                    let z = nothing_left left d f in
                    rw (enough_left machine left naps q f) (omega (arith, z))
                | inl f ↦ slept_on naps left q f (rw s at h)
              ] in
            rw s (omega (arith, t, u))
      ]

  -- With more fuel than the machine has signals, the countdown returns, whatever the interval is.
  pub countdown_ends :
      (naps : ℕ) (i : Timespec) (r : Run W)
      → c.patience r.world < naps
      → (e : ℕ) × ((countdown machine naps i r).0 ≡ some e)
  countdown_ends zero i r h = absurd (omega arith)
  countdown_ends (suc naps) i r h = elim (Bool-cases (is_left i)) [
    | inr b ↦ (0, rw (enough_left machine i (suc naps) r b) refl)
    | inl b ↦ elim (Turn-cases (turn machine i r).0) [
      | inl (e, k) ↦ (e, rw (ended_of machine i naps e r b k) refl)
      | inr (left, k) ↦
          let (d, t, p) = turn_again i left r k in
          rw (again_of machine i left naps r b k)
            (countdown_ends naps left (turn machine i r).1 (omega (arith, p)))
    ]
  ]
