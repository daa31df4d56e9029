-- ===== src/Tty/Tests.antt =====
-- posix/posix.c, the terminal: runs, and the theorems at concrete inputs.
use schemesh.Base.{ℕ, zero, suc, ◌≡◌, refl, ◌≤◌, ◌<◌, Option, some, none, List, [], ◌∷◌, arith}
use schemesh.Base.Int.{pos}
use schemesh.Base.Text.{codes}
use schemesh.Scheme.{fixnum, pair}
use schemesh.Posix.{eintr}
use schemesh.Tty.{Termios, Attempt, done, failed, Confs, Device, tty_setraw, tty_restore, tty_size}
use schemesh.Tty.Restore.{IsTerminal, SetTo, tty_restore-tty_setraw}

-- A configuration, and how many calls will be interrupted.
abbrev Screen : Type 0
Screen = Termios × ℕ

abbrev get : Screen → Attempt Termios × Screen
get (c, zero) = (done c, (c, zero))
get (c, suc n) = (failed eintr, (c, n))

abbrev put : Termios → Screen → Attempt (Unit {0}) × Screen
put new (c, zero) = (done tt, (new, zero))
put new (c, suc n) = (failed eintr, (c, n))

abbrev screen : Device Screen
screen = record { getattr = get; setattr = put }

abbrev screen_laws : IsTerminal Screen screen
screen_laws = record {
  conf_of = λ w. w.0;
  patience = λ w. w.1;
  get_done = got;
  get_failed = kept;
  set_errno = put_errno;
  get_errno = errno_above;
  get_patience = get_costs;
  set_patience = put_costs;
  get_interrupted = get_less;
  set_interrupted = put_less;
}
  where
    got : (w : Screen) (c : Termios) → (get w).0 ≡ done c → (c ≡ w.0) × ((get w).1.0 ≡ w.0)
    got (c, zero) d h = (ground arith, refl)
    got (c, suc n) d h = absurd (ground arith)

    kept : (w : Screen) (e : ℕ) → (get w).0 ≡ failed e → (get w).1.0 ≡ w.0
    kept (c, zero) e h = refl
    kept (c, suc n) e h = refl

    put_errno : (w : Screen) (c : Termios) (e : ℕ) → (put c w).0 ≡ failed e → 0 < e
    put_errno (c, zero) d e h = absurd (ground arith)
    put_errno (c, suc n) d e h = ground arith

    errno_above : (w : Screen) (e : ℕ) → (get w).0 ≡ failed e → 0 < e
    errno_above (c, zero) e h = absurd (ground arith)
    errno_above (c, suc n) e h = ground arith

    get_costs : (w : Screen) → (get w).1.1 ≤ w.1
    get_costs (c, zero) = omega arith
    get_costs (c, suc n) = omega arith

    put_costs : (w : Screen) (c : Termios) → (put c w).1.1 ≤ w.1
    put_costs (c, zero) d = omega arith
    put_costs (c, suc n) d = omega arith

    get_less : (w : Screen) → (get w).0 ≡ failed eintr → (get w).1.1 < w.1
    get_less (c, zero) h = absurd (ground arith)
    get_less (c, suc n) h = omega arith

    put_less : (w : Screen) (c : Termios) → (put c w).0 ≡ failed eintr → (put c w).1.1 < w.1
    put_less (c, zero) d h = absurd (ground arith)
    put_less (c, suc n) d h = omega arith

abbrev cooked : Termios
cooked = record {
  c_iflag = 0o2400;
  c_oflag = 5;
  c_cflag = 0o277;
  c_lflag = 0o100073;
  c_cc = 3 ∷ 28 ∷ [];
}

abbrev no_confs : Confs
no_confs = record { saved_conf = none; raw_conf = none }

-- Some program changed the terminal before it is restored.
abbrev changed : Screen
changed = (record cooked { c_lflag = 0 }, 1)

entered : (tty_setraw screen 5 no_confs (cooked, 2)).0 ≡ some (pos 0)
unfolding tty_setraw
entered = refl

left_again :
    (tty_restore screen 5 (tty_setraw screen 5 no_confs (cooked, 2)).1 changed).0 ≡ some (pos 0)
unfolding tty_setraw tty_restore
left_again = refl

tty_restore-tty_setraw_example :
    SetTo screen screen_laws cooked
      (tty_restore screen 5 (tty_setraw screen 5 no_confs (cooked, 2)).1 changed).1
tty_restore-tty_setraw_example =
    tty_restore-tty_setraw screen screen_laws 5 5 no_confs (cooked, 2) changed entered left_again

-- COLUMNS and LINES are both the number 80.
abbrev eighty : List ℕ → Option (List ℕ)
eighty name = some (codes "80")

abbrev as_eighty : List ℕ → Option ℕ
as_eighty text = some 80

size_known : tty_size as_eighty eighty (done (100, 30)) ≡ pair (fixnum (pos 100)) (fixnum (pos 30))
unfolding tty_size
size_known = refl
