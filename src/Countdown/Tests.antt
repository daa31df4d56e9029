-- ===== src/Countdown/Tests.antt =====
-- utils/countdown.c: runs, and the theorems at concrete inputs.
use schemesh.Base.{
  ℕ, suc, ◌+◌, ◌-◌, ◌^◌, ◌/◌, ◌%◌, ◌≡◌, refl, ◌≤◌, ◌<◌, min, Bool, true, false, List, [], ◌∷◌,
  length, some, if◌then◌else◌, arith,
}
use schemesh.Base.Int.{ℤ, pos, neg}
use schemesh.Scheme.{Ptr, fixnum, pair, snil}
use schemesh.Posix.{eintr, einval}
use schemesh.Countdown.{Timespec, Machine, Run, countdown, countdown_pair, interval_of, run}
use schemesh.Countdown.Sleep.{IsDuration, duration, IsClock, countdown_slept, countdown_ends}
use schemesh.Countdown.Signals.{IsCounted, pending, countdown-Accounts}

-- How long each of the next naps lasts until a signal cuts it, and whether that is a SIGTSTP; the time
-- slept; the numbers of the SIGTSTP that arrived and of the suspensions.
abbrev Night : Type 0
Night = List (ℕ × Bool) × ℕ × ℕ × ℕ

abbrev seconds : ℕ → Timespec
seconds n = record { tv_sec = pos (n / 1000000000); tv_nsec = pos (n % 1000000000) }

abbrev sleeps : Timespec → Night → ℕ × Timespec × Bool × Night
sleeps i ([], t, a, s) = (0, seconds 0, false, ([], t + duration i, a, s))
sleeps i ((n, stop) ∷ naps, t, a, s) =
    let d = duration i in
    (eintr, seconds (d - n), stop, (naps, t + min n d, a + (if stop then 1 else 0), s))

abbrev stops : Night → Night
stops (naps, t, a, s) = (naps, t, a, suc s)

abbrev night : Machine Night
night = record { clock_nanosleep = sleeps; suspend = stops }

abbrev night_clock : IsClock Night night
night_clock = record {
  elapsed = λ w. w.1;
  patience = λ w. length (w.0);
  slept = slept;
  cut = cut;
  paused = λ w. ground arith;
}
  where
    slept : (i : Timespec) (w : Night) → (sleeps i w).0 ≡ 0 → w.1 + duration i ≤ (sleeps i w).3.1
    slept i ([], t, a, s) h = omega arith
    slept i ((n, stop) ∷ naps, t, a, s) h = absurd (ground arith)

    cut :
        (i : Timespec) (w : Night)
        → (sleeps i w).0 ≡ eintr
        → IsDuration (sleeps i w).1
          × (w.1 + duration i ≤ (sleeps i w).3.1 + duration (sleeps i w).1)
          × (length (sleeps i w).3.0 < length (w.0))
    cut i ([], t, a, s) h = absurd (ground arith)
    cut i ((n, stop) ∷ naps, t, a, s) h = ((refl, refl), ground arith, omega arith)

abbrev night_counts : IsCounted Night night
night_counts = record {
  arrivals = λ w. w.2;
  suspensions = λ w. w.3;
  count_nap = counted;
  count_suspend = λ w. ground arith;
}
  where
    counted :
        (i : Timespec) (w : Night)
        → ((sleeps i w).3.2 ≡ w.2 + (if (sleeps i w).2 then 1 else 0)) × ((sleeps i w).3.3 ≡ w.3)
    counted i ([], t, a, s) = ground arith
    counted i ((n, stop) ∷ naps, t, a, s) = ground arith

abbrev awake : List (ℕ × Bool) → Run Night
awake naps = record { world = (naps, 0, 0, 0); sigtstp_received = false; handled = false }

-- Ten seconds, with CTRL+Z behind three of them and another signal behind four more.
abbrev ten : Timespec
ten = seconds 10000000000

abbrev broken : Run Night
broken = awake ((3000000000, true) ∷ (4000000000, false) ∷ [])

abbrev ten_slept : Run Night
ten_slept = record { world = ([], 10000000000, 1, 1); sigtstp_received = false; handled = true }

ten_run : countdown night 5 ten broken ≡ (some 0, ten_slept)
unfolding countdown
ten_run = refl

countdown_slept_example : 0 + 10000000000 ≤ (countdown night 5 ten broken).1.world.1
countdown_slept_example =
    countdown_slept night night_clock 5 ten broken (refl, refl) (rw ten_run refl)

countdown_ends_example : (e : ℕ) × ((countdown night 5 ten broken).0 ≡ some e)
countdown_ends_example = countdown_ends night night_clock 5 ten broken (omega arith)

countdown-Accounts_example :
    let q = (countdown night 5 ten broken).1 in
    q.world.3 + pending night night_counts q + 0 ≡ q.world.2 + 0
countdown-Accounts_example = countdown-Accounts night night_counts 5 ten broken refl

-- No fraction of a second may reach 1000000000 nanoseconds, but one that is near enough does.
rounded_up : interval_of (2 ^ 40 - 1) 40 ≡ record { tv_sec = pos 0; tv_nsec = pos 1000000000 }
unfolding interval_of
rounded_up = refl

half_past : interval_of 7 1 ≡ record { tv_sec = pos 3; tv_nsec = pos 500000000 }
unfolding interval_of
half_past = refl

bad_argument : run night 5 (7, 1, false) broken ≡ (some 0, broken)
unfolding run
bad_argument = refl

-- The value of a fixnum.
abbrev value : Ptr → ℤ
value (fixnum n) = n
value _ = pos 0

pair_cut :
    (countdown_pair night value value (pair (fixnum (pos 10)) (fixnum (pos 0))) broken.world).1
    ≡ pair (fixnum (pos 7)) (fixnum (pos 0))
unfolding countdown_pair
pair_cut = refl

no_pair : (countdown_pair night value value snil broken.world).0 ≡ neg einval
unfolding countdown_pair
no_pair = refl
