-- ===== src/Posix/JobControl/Foreground.antt =====
-- Which process group is put in the foreground, and when.
use schemesh.Base.{
  ap, ℕ, zero, suc, ◌≡◌, refl, ◌∙◌, ◌≤◌, ◌<◌, ◌==◌, true, false, some, List, ◌∷◌, ◌⊎◌, arith,
  Bool-cases, inl, inr, if◌then◌else◌,
}
use schemesh.Base.Int.{ℤ, pos, negsuc, negate, eq_ℤ, neg}
use schemesh.Posix.{
  Kernel, Process, Call, ok, tcgetpgrp, tcsetpgrp, getpgid, kill, call, is_neg, enotty,
}
use schemesh.Posix.Calls.{call-IsSame, call-trace, call-world}
use schemesh.Posix.JobControl.{
  pgid_foreground_cas, suspend_until_foreground, job_control_available, job_control_change, sigttin,
}

-- A terminal tty as the processes of a group pgid see it: which group is in its foreground, and how
-- often the group will still be continued without being put there. Asking changes nothing, and
-- SIGTTIN stops the group until it is continued.
pub record IsJobTerminal (W : Type 0) (kernel : Kernel W) (tty : ℤ) (pgid : ℕ) : Type 0 where
  pub foreground : W → ℕ
  pub turns : W → ℕ
  pub asks_foreground : (w : W) → kernel (tcgetpgrp tty) w ≡ (ok (foreground w) 0, w)
  pub asks_own : (w : W) → kernel (getpgid (pos 0)) w ≡ (ok pgid 0, w)
  pub continued :
      (w : W)
      → (foreground w == pgid) ≡ false
      → turns (kernel (kill (negate (pos pgid)) sigttin) w).1 < turns w

-- The calls of n rounds in which the group pgid was stopped, and of the last one, newest first.
abbrev pub rounds_trace : ℤ → ℤ → ℕ → List Call → List Call
rounds_trace tty pgid zero t = getpgid (pos 0) ∷ tcgetpgrp tty ∷ t
rounds_trace tty pgid (suc n) t =
    rounds_trace tty pgid n (kill (negate pgid) sigttin ∷ getpgid (pos 0) ∷ tcgetpgrp tty ∷ t)

module _ {W : Type 0} (kernel : Kernel W) where
  -- Compare and swap with an expected group: the foreground group is asked for, and changed only if the
  -- answer was the expected group and the new group is another one.
  pub pgid_foreground_cas_lem :
      (old : ℕ) (new_pgid : ℤ) (p : Process W)
      → let q = (pgid_foreground_cas kernel (pos old) new_pgid p).1 in
        let asked = tcgetpgrp p.tty_fd ∷ p.trace in
        (q.trace ≡ asked)
        ⊎ ((q.trace ≡ tcsetpgrp p.tty_fd new_pgid ∷ asked)
            × ((call kernel (tcgetpgrp p.tty_fd) p).0 ≡ pos old)
            × (eq_ℤ (pos old) new_pgid ≡ false))
  unfolding pgid_foreground_cas
  pgid_foreground_cas_lem old new_pgid p = ground arith

  remembered :
      (g : ℤ) (n m : ℕ)
      → (let h = (if is_neg g then pos n else g) in if is_neg h then pos m else h)
        ≡ (if is_neg g then pos n else g)
  remembered (pos k) n m = refl
  remembered (negsuc k) n m = refl

  module _ (tty : ℤ) (pgid : ℕ) (t : IsJobTerminal W kernel tty pgid) where
    -- Behind the two questions of a round.
    asked : Process W → Process W
    asked p = record p {
      tty_pgid = if is_neg p.tty_pgid then pos (t.foreground p.world) else p.tty_pgid;
      trace = getpgid (pos 0) ∷ tcgetpgrp tty ∷ p.trace;
    }

    in_foreground :
        (rounds : ℕ) (p : Process W)
        → p.tty_fd ≡ tty
        → (t.foreground p.world == pgid) ≡ true
        → suspend_until_foreground kernel (suc rounds) p ≡ (some (pos pgid), asked p)
    unfolding suspend_until_foreground asked
    in_foreground rounds p e h =
        let a = t.asks_foreground p.world in let b = t.asks_own p.world in ground arith

    in_background :
        (rounds : ℕ) (p : Process W)
        → p.tty_fd ≡ tty
        → (t.foreground p.world == pgid) ≡ false
        → suspend_until_foreground kernel (suc rounds) p
          ≡ suspend_until_foreground kernel rounds
              (call kernel (kill (negate (pos pgid)) sigttin) (asked p)).1
    unfolding suspend_until_foreground asked
    in_background rounds p e h =
        let a = t.asks_foreground p.world in let b = t.asks_own p.world in ground arith

    stopped_again :
        (p : Process W)
        → let q = (call kernel (kill (negate (pos pgid)) sigttin) (asked p)).1 in
          (q.tty_fd ≡ p.tty_fd)
          × (q.tty_pgid ≡ (asked p).tty_pgid)
          × (q.trace ≡ kill (negate (pos pgid)) sigttin ∷ getpgid (pos 0) ∷ tcgetpgrp tty ∷ p.trace)
          × (q.world ≡ (kernel (kill (negate (pos pgid)) sigttin) p.world).1)
    unfolding asked
    stopped_again p =
        let c = kill (negate (pos pgid)) sigttin in
        let (same_fd, same_pgid, _) = call-IsSame kernel c (asked p) in
        (same_fd, same_pgid, call-trace kernel c (asked p), call-world kernel c (asked p))

    same_group :
        (p : Process W) → (t.foreground p.world == pgid) ≡ true → t.foreground p.world ≡ pgid
    same_group p h = let n = t.foreground p.world in ground arith

    -- Over a terminal of the process whose group and foreground group can be asked for without
    -- changing anything, and where being stopped by SIGTTIN lowers the number of times that the
    -- group is still continued in the background: with fuel for more rounds than that number the
    -- loop ends. Its result is the group, which is then in the foreground. On the way the process
    -- did nothing but ask for both groups in each round and stop its own group behind each but the
    -- last one, no more often than that number; and tty_pgid, if it was negative, is the group
    -- that was in the foreground first, and else as before.
    pub suspend_until_foreground_ends :
        (rounds : ℕ) (p : Process W)
        → p.tty_fd ≡ tty
        → t.turns p.world < rounds
        → let (r, q) = suspend_until_foreground kernel rounds p in
          (r ≡ some (pos pgid))
          × (t.foreground q.world ≡ pgid)
          × (q.tty_pgid ≡ (if is_neg p.tty_pgid then pos (t.foreground p.world) else p.tty_pgid))
          × ((n : ℕ) × (n ≤ t.turns p.world) × (q.trace ≡ rounds_trace tty (pos pgid) n p.trace))
    unfolding asked
    suspend_until_foreground_ends zero p e h = absurd (omega arith)
    suspend_until_foreground_ends (suc rounds) p e h =
        elim (Bool-cases (t.foreground p.world == pgid)) [
          | inl b ↦
              rw (in_foreground rounds p e b) (refl, same_group p b, refl, (0, omega arith, refl))
          | inr b ↦
              let (fd, group, trace, world) = stopped_again p in
              let fewer = t.continued p.world b in
              let q = (call kernel (kill (negate (pos pgid)) sigttin) (asked p)).1 in
              let (r, front, back, (n, few, calls)) =
                suspend_until_foreground_ends rounds q (fd ∙ e) (rw world (omega (arith, fewer))) in
              rw (in_background rounds p e b) (
                r,
                front,
                back
                    ∙ rw group
                        (remembered p.tty_pgid (t.foreground p.world) (t.foreground q.world)),
                (
                  suc n,
                  omega (arith, few, fewer, ap t.turns world),
                  calls ∙ ap (rounds_trace tty (pos pgid) n) trace,
                ),
              )
        ]

  -- Without a terminal job control is not enabled: the result is -ENOTTY, and no call is made behind
  -- the test of the terminal, so that the handlers of signals stay.
  pub job_control_change_unavailable :
      (rounds enable : ℕ) (p : Process W)
      → (job_control_available kernel p).0 ≡ false
      → let r = job_control_change kernel rounds (pos (suc enable)) p in
        (r.0 ≡ some (neg enotty)) × (r.1.trace ≡ (job_control_available kernel p).1.trace)
  unfolding job_control_change
  job_control_change_unavailable rounds enable p h = ground arith
