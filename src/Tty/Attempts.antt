-- ===== src/Tty/Attempts.antt =====
-- Loops that repeat a call while it is interrupted.
use schemesh.Base.{
  ap, Bool-cases, ℕ, zero, suc, ◌≡◌, refl, ◌≤◌, ◌<◌, true, false, some, ◌∙◌, ◌==◌, arith, inl, inr,
  ◌⊎◌,
}
use schemesh.Base.Int.{pos, neg}
use schemesh.Posix.{eintr}
use schemesh.Tty.{Attempt, done, failed, attempts, result}

pub Attempt-cases :
    {A : Type 0} (a : Attempt A) → ((x : A) × (a ≡ done x)) ⊎ ((e : ℕ) × (a ≡ failed e))
Attempt-cases (done x) = inl (x, refl)
Attempt-cases (failed e) = inr (e, refl)

none_lem :
    {W A : Type 0} (call : W → Attempt A × W) (w : W) (a : Attempt A)
    → (attempts call zero w).0 ≡ some a
    → ⊥
unfolding attempts
none_lem call w a h = ground arith

module _ {W A : Type 0} (call : W → Attempt A × W) (calls : ℕ) (w : W) where
  first_done :
      (x : A) → (call w).0 ≡ done x → attempts call (suc calls) w ≡ (some (done x), (call w).1)
  unfolding attempts
  first_done x q = rw (attempts, q) refl

  first_interrupted :
      (e : ℕ)
      → (call w).0 ≡ failed e
      → (e == eintr) ≡ true
      → attempts call (suc calls) w ≡ attempts call calls (call w).1
  unfolding attempts
  first_interrupted e q b = rw (attempts, q, b) refl

  first_failed :
      (e : ℕ)
      → (call w).0 ≡ failed e
      → (e == eintr) ≡ false
      → attempts call (suc calls) w ≡ (some (failed e), (call w).1)
  unfolding attempts
  first_failed e q b = rw (attempts, q, b) refl

-- A loop of calls, each of which costs patience where it is interrupted, ends.
pub attempts_end :
    {W A : Type 0} (call : W → Attempt A × W) (patience : W → ℕ)
    → ((w : W) → (call w).0 ≡ failed eintr → patience (call w).1 < patience w)
    → ((w : W) → patience (call w).1 ≤ patience w)
    → (calls : ℕ) (w : W) → patience w < calls
    → (a : Attempt A) × ((attempts call calls w).0 ≡ some a)
      × (patience (attempts call calls w).1 ≤ patience w)
attempts_end call patience costs keeps zero w h = absurd (omega arith)
attempts_end call patience costs keeps (suc calls) w h = elim (Attempt-cases (call w).0) [
  | inl (x, q) ↦ let s = first_done call calls w x q in (done x, rw s refl, rw s (keeps w))
  | inr (e, q) ↦ elim (Bool-cases (e == eintr)) [
    | inl b ↦
        let again : e ≡ eintr = ground arith in
        let less = costs w (q ∙ ap failed again) in
        let (a, r, k) =
          attempts_end call patience costs keeps calls (call w).1 (omega (arith, less)) in
        let s = first_interrupted call calls w e q b in (a, rw s r, rw s (omega (arith, k, less)))
    | inr b ↦ let s = first_failed call calls w e q b in (failed e, rw s refl, rw s (keeps w))
  ]
]

-- What holds behind a call that fails holds behind all of them, up to the one that succeeds.
pub attempts_done :
    {W A : Type 0} (call : W → Attempt A × W) (Inv : W → Type 0) (Post : A → W → Type 0)
    → ((w : W) (e : ℕ) → Inv w → (call w).0 ≡ failed e → Inv (call w).1)
    → ((w : W) (x : A) → Inv w → (call w).0 ≡ done x → Post x (call w).1)
    → (calls : ℕ) (w : W) (x : A) → Inv w
    → (attempts call calls w).0 ≡ some (done x)
    → Post x (attempts call calls w).1
attempts_done call Inv Post keeps ends zero w x i h = absurd (none_lem call w (done x) h)
attempts_done call Inv Post keeps ends (suc calls) w x i h = elim (Attempt-cases (call w).0) [
  | inl (y, q) ↦
      let s = first_done call calls w y q in
      let same : y ≡ x = ground (arith, s) in rw s (rw same at (ends w y i q))
  | inr (e, q) ↦ elim (Bool-cases (e == eintr)) [
    | inl b ↦
        let s = first_interrupted call calls w e q b in
        rw s (attempts_done call Inv Post keeps ends calls (call w).1 x (keeps w e i q) (rw s at h))
    | inr b ↦ let s = first_failed call calls w e q b in absurd (ground (arith, s))
  ]
]

pub failed_errno :
    {W A : Type 0} (call : W → Attempt A × W)
    → ((w : W) (e : ℕ) → (call w).0 ≡ failed e → 0 < e)
    → (calls : ℕ) (w : W) (e : ℕ) → (attempts call calls w).0 ≡ some (failed e)
    → neg e ≡ pos 0
    → ⊥
failed_errno call errnos zero w e h k = none_lem call w (failed e) h
failed_errno call errnos (suc calls) w e h k = elim (Attempt-cases (call w).0) [
  | inl (y, q) ↦ let s = first_done call calls w y q in absurd (ground (arith, s))
  | inr (n, q) ↦ elim (Bool-cases (n == eintr)) [
    | inl b ↦
        let s = first_interrupted call calls w n q b in
        failed_errno call errnos calls (call w).1 e (rw s at h) k
    | inr b ↦
        let s = first_failed call calls w n q b in
        let above = errnos w n q in absurd (ground (arith, s))
  ]
]

pub attempts_errno :
    {W A : Type 0} (call : W → Attempt A × W)
    → ((w : W) (e : ℕ) → (call w).0 ≡ failed e → 0 < e)
    → (calls : ℕ) (w : W) (a : Attempt A) → (attempts call calls w).0 ≡ some a
    → result a ≡ pos 0
    → (x : A) × (a ≡ done x)
attempts_errno call errnos calls w (done x) h k = (x, refl)
attempts_errno call errnos calls w (failed e) h k = absurd (failed_errno call errnos calls w e h k)
