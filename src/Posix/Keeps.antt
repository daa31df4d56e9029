-- ===== src/Posix/Keeps.antt =====
-- A process keeps the terminal that it remembers, and the rules for code that does so.
pub mod Files
pub mod Bytes
pub mod Commands
pub mod Spawn
pub mod Jobs
use schemesh.Base.{
  ℕ, zero, suc, ◌≡◌, refl, ◌∙◌, Bool, true, false, if◌then◌else◌, not, List, arith, Option, none,
  some, ap, ◌-◌,
}
use schemesh.Base.Int.{ℤ, pos, negsuc, neg, eq_ℤ}
use schemesh.Scheme.{Ptr, Ptrs, fixnum, pair, snil}
use schemesh.Posix.{
  M, Kernel, Process, Call, call, call_word, is_neg, ◌>>=◌, ◌>>◌, return, c_errno, c_errno_set,
}
use schemesh.Posix.Calls.{call-IsSame}
use schemesh.Posix.Fd.{fd_close, fd_dup, close_elem, close_loop, retry}

-- The terminal's fd stays, and so does its first process group, once it is known.
abbrev pub Keeps : {W : Type 0} → Process W → Process W → Type 0
Keeps p q = (q.tty_fd ≡ p.tty_fd) × (is_neg p.tty_pgid ≡ false → q.tty_pgid ≡ p.tty_pgid)

-- From each process an operation leads to one that keeps its terminal.
pub record IsKeeping {W A : Type 0} (m : M W A) : Type 0 where
  pub keeps : (p : Process W) → Keeps p (m p).1

module _ {W : Type 0} where
  pub Keeps-trans : (p q r : Process W) → Keeps p q → Keeps q r → Keeps p r
  Keeps-trans p q r (f, g) (h, k) = (h ∙ f, λ n. k (ap is_neg (g n) ∙ n) ∙ g n)

  pub return-IsKeeping : {A : Type 0} (a : A) → IsKeeping {W = W} (return a)
  return-IsKeeping a = record { keeps = λ p. (refl, λ n. refl) }

  pub c_errno-IsKeeping : IsKeeping {W = W} c_errno
  c_errno-IsKeeping = record { keeps = λ p. (refl, λ n. refl) }

  pub c_errno_set-IsKeeping : (e : ℕ) → IsKeeping {W = W} (c_errno_set e)
  c_errno_set-IsKeeping e = record { keeps = λ p. (refl, λ n. refl) }

  pub bind-IsKeeping :
      {A B : Type 0} {m : M W A} {f : A → M W B}
      → IsKeeping m
      → ((a : A) → IsKeeping (f a))
      → IsKeeping (m >>= f)
  bind-IsKeeping {A} {B} {m} {f} h k = record {
    keeps =
        λ p. Keeps-trans p (m p).1 (f (m p).0 (m p).1).1 (h.keeps p) ((k (m p).0).keeps (m p).1);
  }

  pub if-IsKeeping :
      {A : Type 0} {m n : M W A} (b : Bool)
      → IsKeeping m
      → IsKeeping n
      → IsKeeping (if b then m else n)
  if-IsKeeping true h k = h
  if-IsKeeping false h k = k

  pub option-IsKeeping :
      {A B : Type 0} (x : Option A) {m : M W B} {f : A → M W B}
      → IsKeeping m
      → ((a : A) → IsKeeping (f a))
      → IsKeeping (elim x as (λ y. M W B) [ none ↦ m | some a ↦ f a ])
  option-IsKeeping none h k = h
  option-IsKeeping (some a) h k = k a

module _ {W : Type 0} (kernel : Kernel W) where
  pub call_word-IsKeeping : (c : Call) → IsKeeping (call_word kernel c)
  call_word-IsKeeping c = record { keeps = λ p. let s = call-IsSame kernel c p in (s.0, λ n. s.1) }

  pub call-IsKeeping : (c : Call) → IsKeeping (call kernel c)
  call-IsKeeping c = record { keeps = λ p. let s = call-IsSame kernel c p in (s.0, λ n. s.1) }

pub ruleset keep_rules = (
  bind-IsKeeping, if-IsKeeping, option-IsKeeping, return-IsKeeping, c_errno-IsKeeping,
  c_errno_set-IsKeeping, call_word-IsKeeping, call-IsKeeping,
)
