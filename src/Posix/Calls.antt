-- ===== src/Posix/Calls.antt =====
-- What a system call changes of the process, whatever the kernel answers.
use schemesh.Base.{ℕ, false, ◌≡◌, ◌<◌, true, ◌∷◌, arith, inl, inr}
use schemesh.Base.Int.{pos}
use schemesh.Posix.{
  ok, fail, Answer-cases, Kernel, Process, Call, HasErrnos, call, call_word, is_neg,
}

module _ {W : Type 0} (kernel : Kernel W) where
  -- The terminal's fd and group, and the environment.
  abbrev pub IsSame : Process W → Process W → Type 0
  IsSame p q = (q.tty_fd ≡ p.tty_fd) × (q.tty_pgid ≡ p.tty_pgid) × (q.environ ≡ p.environ)

  pub call-IsSame : (c : Call) (p : Process W) → IsSame p (call_word kernel c p).1
  call-IsSame c p = elim (Answer-cases (kernel c p.world).0) [
    | inl (r, word, e) ↦ ground arith
    | inr (n, e) ↦ ground arith
  ]

  pub call-trace : (c : Call) (p : Process W) → (call_word kernel c p).1.trace ≡ c ∷ p.trace
  call-trace c p = elim (Answer-cases (kernel c p.world).0) [
    | inl (r, word, e) ↦ ground arith
    | inr (n, e) ↦ ground arith
  ]

  -- A call that fails stores an errno above 0, and no other stores one.
  pub call-errno :
      (c : Call) (p : Process W)
      → HasErrnos kernel
      → is_neg (call kernel c p).0 ≡ true
      → 0 < (call_word kernel c p).1.errno
  call-errno c p errnos h = elim (Answer-cases (kernel c p.world).0) [
    | inl (r, word, e) ↦ absurd (ground arith)
    | inr (n, e) ↦ let above = errnos c p.world n e in ground arith
  ]

  pub errno_above :
      (c : Call) (p : Process W)
      → HasErrnos kernel
      → 0 < p.errno
      → 0 < (call_word kernel c p).1.errno
  errno_above c p errnos h = elim (Answer-cases (kernel c p.world).0) [
    | inl (r, word, e) ↦ ground arith
    | inr (n, e) ↦ let above = errnos c p.world n e in ground arith
  ]

  pub call-world :
      (c : Call) (p : Process W) → (call_word kernel c p).1.world ≡ (kernel c p.world).1
  call-world c p = elim (Answer-cases (kernel c p.world).0) [
    | inl (r, word, e) ↦ ground arith
    | inr (n, e) ↦ ground arith
  ]

  pub call-ok :
      (c : Call) (p : Process W)
      → is_neg (call kernel c p).0 ≡ false
      → (r : ℕ) × (word : ℕ) × ((kernel c p.world).0 ≡ ok r word) × ((call kernel c p).0 ≡ pos r)
  call-ok c p h = elim (Answer-cases (kernel c p.world).0) [
    | inl (r, word, e) ↦ (r, word, e, ground arith)
    | inr (n, e) ↦ absurd (ground arith)
  ]

  pub call-fail :
      (c : Call) (p : Process W)
      → is_neg (call kernel c p).0 ≡ true
      → (e : ℕ) × ((kernel c p.world).0 ≡ fail e)
  call-fail c p h = elim (Answer-cases (kernel c p.world).0) [
    | inl (r, word, e) ↦ absurd (ground arith)
    | inr (n, e) ↦ (n, e)
  ]
