-- ===== src/Paths/Cwd.antt =====
-- The working directory is found, however long its name is.
use native.Mathlib.Nat.{pow-suc, pow-succ', mul_assoc, mul-le-mul_left, one-le-pow, mod-eq_of_lt}
use schemesh.Base.{
  ℕ, zero, suc, ◌+◌, ◌*◌, ◌%◌, ◌^◌, ◌≡◌, refl, ◌≤◌, ◌<◌, ◌∙◌, sym, Bool, true, false, ◌&&◌, not,
  Option, none, some, List, ◌==◌, length, arith, inl, inr, Bool-cases, lt-cases,
}
use schemesh.Base.Int.{ℤ, pos}
use schemesh.Scheme.{Ptr}
use schemesh.Strings.{sstring_utf8b}
use schemesh.Tty.{Attempt, done, failed}
use schemesh.Tty.Attempts.{Attempt-cases}
use schemesh.Paths.{erange, made, cwd_loop, get_cwd}

-- Twice the size, in 64 bits.
abbrev twice : ℕ → ℕ
twice n = n * 2 % 2 ^ 64

-- A product of powers of two that is 2^64 is reached without an overflow before.
twice_below : (k n : ℕ) → n * 2 * 2 ^ suc k ≡ 2 ^ 64 → twice n ≡ n * 2
twice_below k n h =
    let p = pow-suc 2 k in
    let q = mul-le-mul_left (n * 2) (one-le-pow k 2 (omega arith)) in
    let r = mul_assoc (n * 2) (2 ^ k) 2 in
    mod-eq_of_lt (omega (arith, q, h ∙ refl, sym (rw p at h) ∙ sym r))

shifted : (k n : ℕ) → n * 2 * 2 ^ suc k ≡ 2 ^ 64 → n * 2 * 2 * 2 ^ k ≡ 2 ^ 64
shifted k n h = let p = pow-succ' 2 k in let q = mul_assoc (n * 2) 2 (2 ^ k) in q ∙ (rw p at h)

module _ (malloc : ℕ → Bool) (smake_string : ℤ → Option (List ℕ))
    (getcwd : ℕ → Attempt (List ℕ)) where
  stopped :
      (k n : ℕ)
      → (not (n == 0) && malloc n) ≡ false
      → cwd_loop malloc smake_string (suc k) getcwd n ≡ some (made (smake_string (pos 0)))
  unfolding cwd_loop
  stopped k n h = rw (cwd_loop, h) refl

  found :
      (k n : ℕ) (dir : List ℕ)
      → (not (n == 0) && malloc n) ≡ true
      → getcwd n ≡ done dir
      → cwd_loop malloc smake_string (suc k) getcwd n
        ≡ some (made (sstring_utf8b smake_string dir none))
  unfolding cwd_loop
  found k n dir h g = rw (cwd_loop, h, g) refl

  too_small :
      (k n e : ℕ)
      → (not (n == 0) && malloc n) ≡ true
      → getcwd n ≡ failed e
      → cwd_loop malloc smake_string (suc k) getcwd n
        ≡ cwd_loop malloc smake_string k getcwd (twice n)
  unfolding cwd_loop
  too_small k n e h g = rw (cwd_loop, h, g) refl

  abbrev Ends : ℕ → ℕ → Type 0
  Ends rounds n = (r : Option Ptr) × (cwd_loop malloc smake_string rounds getcwd n ≡ some r)

  one_more : (k n : ℕ) → Ends k (twice n) → Ends (suc k) n
  one_more k n (r, h) = elim (Bool-cases (not (n == 0) && malloc n)) [
    | inr b ↦ (made (smake_string (pos 0)), stopped k n b)
    | inl b ↦ elim (Attempt-cases (getcwd n)) [
      | inl (dir, g) ↦ (made (sstring_utf8b smake_string dir none), found k n dir b g)
      | inr (e, g) ↦ (r, too_small k n e b g ∙ h)
    ]
  ]

  loop-Ends : (k n : ℕ) → n * 2 * 2 ^ k ≡ 2 ^ 64 → Ends (suc (suc k)) n
  loop-Ends zero n h =
      let z : twice n ≡ 0 = omega (arith, h) in
      one_more 1 n (rw z (made (smake_string (pos 0)), stopped 0 0 refl))
  loop-Ends (suc k) n h =
      one_more (suc (suc k)) n (rw (twice_below k n h) (loop-Ends k (n * 2) (shifted k n h)))

  -- With fuel for 55 buffers on the heap, the search for the working directory returns, whatever
  -- `getcwd` and `malloc` answer.
  pub get_cwd_ends : (r : Option Ptr) × (get_cwd malloc smake_string 55 getcwd ≡ some r)
  unfolding get_cwd
  get_cwd_ends = elim (Attempt-cases (getcwd 256)) [
    | inl (dir, g) ↦ (made (sstring_utf8b smake_string dir none), rw (get_cwd, g) refl)
    | inr (e, g) ↦ elim (Bool-cases (e == erange)) [
      | inr b ↦ (made (smake_string (pos 0)), rw (get_cwd, g, b) refl)
      | inl b ↦ let (r, h) = loop-Ends 53 1024 refl in (r, rw (get_cwd, g, b) h)
    ]
  ]

  -- `getcwd` gives the directory to a buffer that has space for its name and a final 0, and ERANGE to
  -- any other.
  abbrev pub Gives : List ℕ → Type 0
  Gives dir =
      (n : ℕ) → (length dir < n → getcwd n ≡ done dir) × (n ≤ length dir → getcwd n ≡ failed erange)

  -- There is memory for buffers up to a size.
  abbrev pub HasMemory : ℕ → Type 0
  HasMemory size = (n : ℕ) → n ≤ size → malloc n ≡ true

  at_once :
      (k n : ℕ) (dir : List ℕ)
      → Gives dir
      → HasMemory (2 * length dir + 1024)
      → 0 < n
      → n ≤ 2 * length dir + 1024
      → (n ≤ length dir
          → cwd_loop malloc smake_string k getcwd (twice n)
            ≡ some (made (sstring_utf8b smake_string dir none)))
      → cwd_loop malloc smake_string (suc k) getcwd n
        ≡ some (made (sstring_utf8b smake_string dir none))
  at_once k n dir gives memory above small larger =
      let m = memory n small in
      let b : (not (n == 0) && malloc n) ≡ true = ground arith in
      elim (lt-cases (length dir) n) [
        | inl less ↦ found k n dir b ((gives n).0 less)
        | inr more ↦ too_small k n erange b ((gives n).1 more) ∙ larger more
      ]

  found_above :
      (k n : ℕ) (dir : List ℕ)
      → Gives dir
      → HasMemory (2 * length dir + 1024)
      → 0 < n
      → n ≤ 2 * length dir + 1024
      → length dir < n * 2 ^ k
      → length dir < 2 ^ 62
      → cwd_loop malloc smake_string (suc k) getcwd n
        ≡ some (made (sstring_utf8b smake_string dir none))
  found_above zero n dir gives memory above small enough short =
      at_once zero n dir gives memory above small (λ more. absurd (omega (arith, enough, more)))
  found_above (suc k) n dir gives memory above small enough short =
      at_once (suc k) n dir gives memory above small (λ more.
        let t : twice n ≡ n * 2 = mod-eq_of_lt (omega (arith, more, short)) in
        let e : n * 2 ^ suc k ≡ n * 2 * 2 ^ k = rw (pow-succ' 2 k) (sym (mul_assoc n 2 (2 ^ k))) in
        rw t (
          found_above k (n * 2) dir gives memory (omega (arith, above)) (omega (arith, more))
            (rw e at enough) short))

  -- Over a `getcwd` that gives the directory to each buffer with space for it, and with memory for
  -- twice its length and 1024 bytes more: a directory whose name has fewer than 2^62 bytes is found,
  -- and the result is its name as a string, whether the buffer on the stack was large enough or not.
  pub get_cwd_lem :
      (dir : List ℕ)
      → Gives dir
      → HasMemory (2 * length dir + 1024)
      → length dir < 2 ^ 62
      → get_cwd malloc smake_string 55 getcwd ≡ some (made (sstring_utf8b smake_string dir none))
  unfolding get_cwd
  get_cwd_lem dir gives memory short = elim (lt-cases (length dir) 256) [
    | inl b ↦ rw (get_cwd, (gives 256).0 b) refl
    | inr b ↦
        rw (get_cwd, (gives 256).1 b)
          (found_above 54 1024 dir gives memory (omega arith) (omega arith) (omega (arith, short))
            short)
  ]
