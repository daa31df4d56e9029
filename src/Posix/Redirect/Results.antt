-- ===== src/Posix/Redirect/Results.antt =====
-- The results of redirections.
use schemesh.Base.{
  ℕ, ◌≡◌, refl, ◌<◌, bit_or, Bool, false, none, some, List, arith, if◌then◌else◌, inl, inr, ◌⊎◌,
  Bool-cases,
}
use schemesh.Base.Int.{ℤ, pos, neg, negate, eq_ℤ}
use schemesh.Scheme.{Ptr, Ptrs, nil, cons}
use schemesh.Posix.{M, Kernel, Process, dup2, open_file, is_neg, fail, einval}
use schemesh.Posix.Redirect.{
  Target, closed, other_fd, path, invalid, target_of, fd_of, flags_of, fd_redirect, redirect_to,
  o_cloexec, fds_loop, target,
}

infixr 65 ◌++ₚ◌
abbrev pub ◌++ₚ◌ : Ptrs → Ptrs → Ptrs
nil ++ₚ ys = ys
cons x xs ++ₚ ys = cons x (xs ++ₚ ys)

-- The length is a multiple of 4.
abbrev pub Quadruples : Ptrs → Type 0
Quadruples nil = Unit
Quadruples (cons a (cons b (cons c (cons d xs)))) = Quadruples xs
Quadruples _ = ⊥

-- The results that a target can have.
abbrev pub Reported : Target → ℤ → Type 0
Reported closed r = r ≡ pos 0
Reported (other_fd n) r = (r ≡ pos 0) ⊎ (r ≡ pos 1)
Reported (path name) r = is_neg r ≡ false
Reported invalid r = r ≡ neg einval

negate-neg : (n : ℕ) → negate (neg n) ≡ pos n
negate-neg n = ground arith

module _ {W : Type 0} (kernel : Kernel W) (strerror : ℕ → List ℕ) (address : Ptr → ℕ) where
  abbrev redirect : Ptr → Ptr → Ptr → Bool → M W ℤ
  redirect = fd_redirect kernel strerror address

  -- With a valid fd and direction, and a path that `open` fails on: the result is the errno and
  -- not its negation.
  pub fd_redirect_unopened :
      (from_fd direction_ch to : Ptr) (close_on_exec : Bool) (p : Process W) (fd flags e : ℕ)
      (name : List ℕ)
      → fd_of from_fd ≡ some fd
      → flags_of direction_ch ≡ some flags
      → target_of to ≡ path name
      → (kernel (open_file name (bit_or flags (if close_on_exec then o_cloexec else 0))) p.world).0
        ≡ fail e
      → (redirect from_fd direction_ch to close_on_exec p).0 ≡ pos e
  unfolding fd_redirect
  fd_redirect_unopened from_fd direction_ch to close_on_exec p fd flags e name a b c d =
      ground (arith, negate-neg e)

  -- An fd that cannot be duplicated: the result is 1, whatever the errno.
  pub fd_redirect_undup :
      (from_fd direction_ch to : Ptr) (close_on_exec : Bool) (p : Process W) (fd flags to_fd e : ℕ)
      → fd_of from_fd ≡ some fd
      → flags_of direction_ch ≡ some flags
      → target_of to ≡ other_fd to_fd
      → (kernel (dup2 (pos to_fd) (pos fd)) p.world).0 ≡ fail e
      → 0 < e
      → (redirect from_fd direction_ch to close_on_exec p).0 ≡ pos 1
  unfolding fd_redirect
  fd_redirect_undup from_fd direction_ch to close_on_exec p fd flags to_fd e a b c d h =
      ground arith

  redirect_to_valid :
      (t : Target) (fd flags : ℕ) (to : Ptr) (close_on_exec : Bool) (p : Process W)
      → Reported t (redirect_to kernel strerror address t fd flags to close_on_exec p).0
  unfolding redirect_to
  redirect_to_valid closed fd flags to close_on_exec p = ground arith
  redirect_to_valid (other_fd n) fd flags to close_on_exec p = ground arith
  redirect_to_valid (path name) fd flags to close_on_exec p = ground arith
  redirect_to_valid invalid fd flags to close_on_exec p = ground arith

  -- With a valid fd and direction: closing the fd gives 0, whatever the kernel answers; another fd as
  -- target gives 0 or 1; a path gives no number below 0; an invalid target gives -EINVAL.
  pub fd_redirect_valid :
      (from_fd direction_ch to : Ptr) (close_on_exec : Bool) (p : Process W) (fd flags : ℕ)
      → fd_of from_fd ≡ some fd
      → flags_of direction_ch ≡ some flags
      → Reported (target_of to) (redirect from_fd direction_ch to close_on_exec p).0
  unfolding fd_redirect
  fd_redirect_valid from_fd direction_ch to close_on_exec p fd flags a b =
      rw (a, b, fd_redirect) (redirect_to_valid (target_of to) fd flags to close_on_exec p)

  -- An fd, a direction or a target that is invalid is reported by -EINVAL.
  pub fd_redirect_invalid :
      (from_fd direction_ch to : Ptr) (close_on_exec : Bool) (p : Process W)
      → (fd_of from_fd ≡ none) ⊎ (flags_of direction_ch ≡ none) ⊎ (target_of to ≡ invalid)
      → (redirect from_fd direction_ch to close_on_exec p).0 ≡ neg einval
  unfolding fd_redirect
  fd_redirect_invalid from_fd direction_ch to close_on_exec p h = ground arith

  abbrev loop : Ptrs → Bool → M W ℤ
  loop = fds_loop kernel strerror address

  -- Behind whole quadruples the redirections go on where the first ones gave 0, in the process
  -- that those left; otherwise the result is that of the first ones, and none of the others is
  -- made.
  pub fds_loop-append :
      (xs ys : Ptrs) (close_on_exec : Bool) (p : Process W)
      → Quadruples xs
      → loop (xs ++ₚ ys) close_on_exec p ≡ (
          let (err, q) = loop xs close_on_exec p in
          if eq_ℤ err (pos 0) then loop ys close_on_exec q else (err, q))
  unfolding fds_loop
  fds_loop-append nil ys close_on_exec p h = refl
  fds_loop-append (cons a nil) ys close_on_exec p h = absurd h
  fds_loop-append (cons a (cons b nil)) ys close_on_exec p h = absurd h
  fds_loop-append (cons a (cons b (cons c nil))) ys close_on_exec p h = absurd h
  fds_loop-append (cons a (cons b (cons c (cons d xs)))) ys close_on_exec p h =
      let r = redirect a b (target c d) close_on_exec p in
      elim (Bool-cases (eq_ℤ r.0 (pos 0))) [
        | inl e ↦ rw e (fds_loop-append xs ys close_on_exec r.1 h)
        | inr e ↦ rw (e, e)
      ]
