-- ===== src/Tty.antt =====
-- posix/posix.c: the modes and the size of the terminal, with the constants of Linux. The terminal is
-- what `tcgetattr` and `tcsetattr` do on a state of its own.
pub mod Attempts
pub mod Restore
pub mod Size
mod Tests
use schemesh.Base.{
  ℕ, zero, suc, ◌-◌, ◌^◌, bit_and, bit_or, Bool, true, false, not, ◌&&◌, Option, none, some, List,
  [], ◌∷◌, ◌++◌, ◌==◌, if◌then◌else◌, replicate, ltb,
}
use schemesh.Base.Int.{ℤ, pos, negsuc, neg, eq_ℤ}
use schemesh.Base.Text.{codes}
use schemesh.Scheme.{Ptr, fixnum, pair}
use schemesh.Posix.{eintr, einval}

pub record Termios : Type 0 where
  pub c_iflag : ℕ
  pub c_oflag : ℕ
  pub c_cflag : ℕ
  pub c_lflag : ℕ
  pub c_cc : List ℕ

-- `flags & ~mask` of 32 bits
abbrev pub without : ℕ → ℕ → ℕ
without flags mask = bit_and flags (2 ^ 32 - 1 - mask)

-- BRKINT 2, ICRNL 0400, IGNBRK 1, IGNCR 0200, INLCR 0100, ISTRIP 040, IXOFF 010000, IXON 02000, PARMRK 010
abbrev pub input_modes : ℕ
input_modes = 0o12753

-- ECHO 010, ECHONL 0100, ICANON 2, IEXTEN 0100000, ISIG 1
abbrev pub local_modes : ℕ
local_modes = 0o100113

-- OPOST 1 and ONLCR 4; CSIZE 060 and PARENB 0400; CS8 060; NCCS 32 and VMIN 6
unfoldable pub tty_fill_raw_conf : Termios → Termios
tty_fill_raw_conf initial_conf = record {
  c_iflag = without initial_conf.c_iflag input_modes;
  c_oflag = bit_or initial_conf.c_oflag 5;
  c_cflag = bit_or (without initial_conf.c_cflag 0o460) 0o60;
  c_lflag = without initial_conf.c_lflag local_modes;
  c_cc = replicate 6 0 ++ (1 ∷ replicate 25 0);
}

-- A call succeeds with a value, or fails with an errno.
pub data Attempt (A : Type 0) : Type 0 where
  done : A → Attempt A
  failed : ℕ → Attempt A

-- `saved_conf`, `raw_conf` and whether they are there
pub record Confs : Type 0 where
  pub saved_conf : Option Termios
  pub raw_conf : Option Termios

pub record Device (W : Type 0) : Type 0 where
  pub getattr : W → Attempt Termios × W
  pub setattr : Termios → W → Attempt (Unit {0}) × W

-- -errno
abbrev pub result : {A : Type 0} → Attempt A → ℤ
result (done a) = pos 0
result (failed e) = neg e

-- `while (call != 0) if (errno != EINTR) return c_errno();` with fuel for the calls
unfoldable pub attempts : {W A : Type 0} → (W → Attempt A × W) → ℕ → W → Option (Attempt A) × W
attempts call zero w = (none, w)
attempts call (suc calls) w = elim ((call w).0) [
  | done a ↦ (some (done a), (call w).1)
  | failed e ↦
      let rest = attempts call calls (call w).1 in
      if e == eintr then rest else (some (failed e), (call w).1)
]

module _ {W : Type 0} (device : Device W) where
  -- The result is none where the fuel does not suffice.
  unfoldable pub set_conf : ℕ → Termios → W → Option ℤ × W
  unfolding attempts
  set_conf calls conf w =
      let r = attempts (device.setattr conf) calls w in
      elim (r.0) [ none ↦ (none, r.1) | some a ↦ (some (result a), r.1) ]

  unfoldable pub tty_restore : ℕ → Confs → W → Option ℤ × W
  unfolding set_conf
  tty_restore calls confs w = elim (confs.saved_conf) [
    | none ↦ (some (pos 0), w)
    | some conf ↦ set_conf calls conf w
  ]

  abbrev pub raw_of : Confs → Termios → Termios
  raw_of confs conf = elim (confs.raw_conf) [ none ↦ tty_fill_raw_conf conf | some raw ↦ raw ]

  unfoldable pub set_raw : ℕ → Confs → Attempt Termios → W → Option ℤ × Confs × W
  unfolding set_conf
  set_raw calls confs (failed e) w = (some (neg e), confs, w)
  set_raw calls confs (done conf) w =
      let raw = raw_of confs conf in
      let (r, w') = set_conf calls raw w in
      (r, record { saved_conf = some conf; raw_conf = some raw }, w')

  unfoldable pub tty_setraw : ℕ → Confs → W → Option ℤ × Confs × W
  unfolding set_raw
  tty_setraw calls confs w =
      let r = attempts (device.getattr) calls w in
      elim (r.0) [ none ↦ (none, confs, r.1) | some a ↦ set_raw calls confs a r.1 ]

abbrev pub columns : List ℕ
columns = codes "COLUMNS"

abbrev pub lines : List ℕ
lines = codes "LINES"

-- `strtoul` reads a number from the whole of a text, or is none: `c_parse_unsigned_long`.
abbrev pub parse_unsigned_long : (List ℕ → Option ℕ) → Option (List ℕ) → ℕ
parse_unsigned_long strtoul none = 0
parse_unsigned_long strtoul (some text) = elim (strtoul text) [ none ↦ 0 | some n ↦ n ]

-- The size that the ioctl gave where it succeeded, and its errno where it did not.
unfoldable pub tty_size : (List ℕ → Option ℕ) → (List ℕ → Option (List ℕ)) → Attempt (ℕ × ℕ) → Ptr
tty_size strtoul getenv ioctl =
    let known : ℕ × ℕ = elim ioctl [
      | done (col, row) ↦ if ltb 0 col && ltb 0 row then (col, row) else (0, 0)
      | failed e ↦ (0, 0)
    ] in
    let err : ℤ = result ioctl in
    let height = known.1 in
    let width' = (if known.0 == 0 then parse_unsigned_long strtoul (getenv columns) else known.0) in
    let width = (if height == 0 then parse_unsigned_long strtoul (getenv lines) else width') in
    if not (width == 0) && not (height == 0)
    then pair (fixnum (pos width)) (fixnum (pos height))
    else if eq_ℤ err (pos 0)
    then fixnum (neg einval)
    else fixnum err
