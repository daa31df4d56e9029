-- ===== src/Tty/Restore.antt =====
-- Raw mode is left as it was entered.
use schemesh.Base.{ℕ, ◌≡◌, refl, ◌≤◌, ◌<◌, none, some, ◌∙◌, arith, Option-cases, inl, inr}
use schemesh.Base.Int.{ℤ, pos, neg}
use schemesh.Posix.{eintr}
use schemesh.Tty.Attempts.{attempts_end, attempts_done, failed_errno, attempts_errno}
use schemesh.Tty.{
  Termios, Attempt, done, failed, Confs, Device, attempts, set_conf, tty_restore, set_raw,
  tty_setraw, result, raw_of,
}

-- A terminal: what is read is its configuration, and reading leaves it. What setting does to it is
-- not said. Each interrupted call costs some of its patience, and no call gives any.
pub record IsTerminal (W : Type 0) (device : Device W) : Type 0 where
  pub conf_of : W → Termios
  pub patience : W → ℕ
  pub get_done :
      (w : W) (c : Termios)
      → (device.getattr w).0 ≡ done c
      → (c ≡ conf_of w) × (conf_of (device.getattr w).1 ≡ conf_of w)
  pub get_failed :
      (w : W) (e : ℕ) → (device.getattr w).0 ≡ failed e → conf_of (device.getattr w).1 ≡ conf_of w
  pub set_errno : (w : W) (c : Termios) (e : ℕ) → (device.setattr c w).0 ≡ failed e → 0 < e
  pub get_errno : (w : W) (e : ℕ) → (device.getattr w).0 ≡ failed e → 0 < e
  pub get_patience : (w : W) → patience (device.getattr w).1 ≤ patience w
  pub set_patience : (w : W) (c : Termios) → patience (device.setattr c w).1 ≤ patience w
  pub get_interrupted :
      (w : W) → (device.getattr w).0 ≡ failed eintr → patience (device.getattr w).1 < patience w
  pub set_interrupted :
      (w : W) (c : Termios)
      → (device.setattr c w).0 ≡ failed eintr
      → patience (device.setattr c w).1 < patience w

module _ {W : Type 0} (device : Device W) (t : IsTerminal W device) where
  set_conf_cases :
      (calls : ℕ) (c : Termios) (w : W)
      → (set_conf device calls c w).0 ≡ some (pos 0)
      → (a : Attempt (Unit {0})) × ((attempts (device.setattr c) calls w).0 ≡ some a)
        × (result a ≡ pos 0)
        × ((set_conf device calls c w).1 ≡ (attempts (device.setattr c) calls w).1)
  unfolding set_conf
  set_conf_cases calls c w h = elim (Option-cases (attempts (device.setattr c) calls w).0) [
    | inl e ↦ absurd (ground arith)
    | inr (a, e) ↦ (a, e, ground arith, ground arith)
  ]

  -- From some state on a call that set the configuration c without an error led to v.
  abbrev pub SetTo : Termios → W → Type 0
  SetTo c v = (x : W) × ((device.setattr c x).0 ≡ done tt) × ((device.setattr c x).1 ≡ v)

  set_conf_done :
      (calls : ℕ) (c : Termios) (w : W)
      → (set_conf device calls c w).0 ≡ some (pos 0)
      → SetTo c (set_conf device calls c w).1
  set_conf_done calls c w h =
      let (a, e, k, same) = set_conf_cases calls c w h in
      let (x, q) = attempts_errno (device.setattr c) (λ v n. t.set_errno v c n) calls w a e k in
      rw same (
        attempts_done (device.setattr c) (λ v. Unit {0}) (λ u v. SetTo c v) (λ v n i r. tt)
          (λ v u i r. (v, r, refl)) calls w x tt (rw q at e))

  get_conf_done :
      (calls : ℕ) (w : W) (c : Termios)
      → (attempts device.getattr calls w).0 ≡ some (done c)
      → (c ≡ t.conf_of w) × (t.conf_of (attempts device.getattr calls w).1 ≡ t.conf_of w)
  get_conf_done calls w c h =
      attempts_done device.getattr (λ v. t.conf_of v ≡ t.conf_of w)
        (λ a v. (a ≡ t.conf_of w) × (t.conf_of v ≡ t.conf_of w)) (λ v e i q. t.get_failed v e q ∙ i)
        (λ v a i q. ((t.get_done v a q).0 ∙ i, (t.get_done v a q).1 ∙ i)) calls w c refl h

  set_raw_saved :
      (calls : ℕ) (confs : Confs) (a : Attempt Termios) (w : W) (c : Termios)
      → a ≡ done c
      → (set_raw device calls confs a w).1.saved_conf ≡ some c
  unfolding set_raw
  set_raw_saved calls confs a w c h = rw h refl

  setraw_of :
      (calls : ℕ) (confs : Confs) (w : W) (a : Attempt Termios)
      → (attempts device.getattr calls w).0 ≡ some a
      → tty_setraw device calls confs w
        ≡ set_raw device calls confs a (attempts device.getattr calls w).1
  unfolding tty_setraw
  setraw_of calls confs w a e = rw (tty_setraw, e) refl

  setraw_none :
      (calls : ℕ) (confs : Confs) (w : W)
      → (attempts device.getattr calls w).0 ≡ none
      → (tty_setraw device calls confs w).0 ≡ some (pos 0)
      → ⊥
  unfolding tty_setraw
  setraw_none calls confs w e h = ground arith

  set_raw_failed :
      (calls : ℕ) (confs : Confs) (e : ℕ) (w : W)
      → (set_raw device calls confs (failed e) w).0 ≡ some (pos 0)
      → neg e ≡ pos 0
  unfolding set_raw
  set_raw_failed calls confs e w h = ground arith

  restore_of :
      (calls : ℕ) (confs : Confs) (u : W) (c : Termios)
      → confs.saved_conf ≡ some c
      → tty_restore device calls confs u ≡ set_conf device calls c u
  unfolding tty_restore
  restore_of calls confs u c e = rw (tty_restore, e) refl

  setraw_saved :
      (calls : ℕ) (confs : Confs) (w : W)
      → (tty_setraw device calls confs w).0 ≡ some (pos 0)
      → (tty_setraw device calls confs w).1.saved_conf ≡ some (t.conf_of w)
  setraw_saved calls confs w h = elim (Option-cases (attempts device.getattr calls w).0) [
    | inl e ↦ absurd (setraw_none calls confs w e h)
    | inr (failed n, e) ↦
        let k = set_raw_failed calls confs n _ (rw (setraw_of calls confs w (failed n) e) at h) in
        absurd (failed_errno device.getattr (λ v m. t.get_errno v m) calls w n e k)
    | inr (done c, e) ↦
        rw (setraw_of calls confs w (done c) e, (get_conf_done calls w c e).0)
          (set_raw_saved calls confs (done (t.conf_of w)) _ (t.conf_of w) refl)
  ]

  -- If raw mode was entered from the state w without an error, and the terminal restored without
  -- an error from any state u, then the restoring ended with a tcsetattr without an error of
  -- exactly the configuration that the terminal had in w. It relies on tcgetattr reading the
  -- configuration of the terminal and leaving it, also where it fails, and on errnos above 0; what
  -- tcsetattr does to the terminal is not assumed.
  pub tty_restore-tty_setraw :
      (calls more : ℕ) (confs : Confs) (w u : W)
      → (tty_setraw device calls confs w).0 ≡ some (pos 0)
      → let confs' = (tty_setraw device calls confs w).1 in
        (tty_restore device more confs' u).0 ≡ some (pos 0)
        → SetTo (t.conf_of w) (tty_restore device more confs' u).1
  tty_restore-tty_setraw calls more confs w u h k =
      let e =
        restore_of more (tty_setraw device calls confs w).1 u (t.conf_of w)
          (setraw_saved calls confs w h) in
      rw e (set_conf_done more (t.conf_of w) u (rw e at k))

  set_conf_ends :
      (calls : ℕ) (c : Termios) (w : W)
      → t.patience w < calls
      → (r : ℤ) × ((set_conf device calls c w).0 ≡ some r)
  unfolding set_conf
  set_conf_ends calls c w h =
      let (a, e, k) =
        attempts_end (device.setattr c) t.patience (λ v q. t.set_interrupted v c q)
          (λ v. t.set_patience v c) calls w h in
      (result a, rw (set_conf, e) refl)

  set_raw_ends :
      (calls : ℕ) (confs : Confs) (a : Attempt Termios) (w : W)
      → t.patience w < calls
      → (r : ℤ) × ((set_raw device calls confs a w).0 ≡ some r)
  unfolding set_raw
  set_raw_ends calls confs (failed e) w h = (neg e, refl)
  set_raw_ends calls confs (done c) w h = set_conf_ends calls (raw_of device confs c) w h

  restore_ends :
      (calls : ℕ) (confs : Confs) (w : W)
      → t.patience w < calls
      → (r : ℤ) × ((tty_restore device calls confs w).0 ≡ some r)
  unfolding tty_restore
  restore_ends calls confs w h = elim (Option-cases confs.saved_conf) [
    | inl e ↦ (pos 0, rw (tty_restore, e) refl)
    | inr (c, e) ↦ rw (restore_of calls confs w c e) (set_conf_ends calls c w h)
  ]

  -- With more fuel than the terminal has patience, entering raw mode gives a result, and so does
  -- restoring the terminal.
  pub tty_setraw_ends :
      (calls : ℕ) (confs : Confs) (w : W)
      → t.patience w < calls
      → ((r : ℤ) × ((tty_setraw device calls confs w).0 ≡ some r))
        × ((r : ℤ) × ((tty_restore device calls confs w).0 ≡ some r))
  tty_setraw_ends calls confs w h =
      let (a, e, k) =
        attempts_end device.getattr t.patience t.get_interrupted t.get_patience calls w h in
      let s = setraw_of calls confs w a e in
      (rw s (set_raw_ends calls confs a _ (omega (arith, k))), restore_ends calls confs w h)
