-- ===== src/Posix/Spawn/Files.antt =====
-- The open files of a forked child.
use schemesh.Base.{
  ℕ, ◌≡◌, refl, ◌∙◌, ap, true, false, Option, ◌∷◌, List, [], arith, Bool-cases, inl, inr,
}
use schemesh.Base.Int.{ℤ, pos, negsuc}
use schemesh.Scheme.{Ptr, Ptrs, vector}
use schemesh.Posix.{
  Kernel, Process, Call, Handler, HasErrnos, fork, fflush, setpgid, sigaction, sig_dfl, call,
  is_neg,
}
use schemesh.Posix.Calls.{call-world}
use schemesh.Posix.Signals.{handle_loop, signals_setdefault, signals_tohandle_rest}
use schemesh.Posix.Redirect.Table.{IsTable, changes_fds}
use schemesh.Posix.Redirect.Refines.{redirected, fds_redirect-redirected}
use schemesh.Posix.Spawn.{pgid_set, fork_child, fork_pid}

not_neg_zero : (r : ℤ) → is_neg r ≡ true → r ≡ pos 0 → ⊥
not_neg_zero (pos n) h k = ground arith
not_neg_zero (negsuc n) h k = ground arith

module _ {W File : Type 0} (kernel : Kernel W) (strerror : ℕ → List ℕ) (address : Ptr → ℕ)
    (t : IsTable W File kernel) (errnos : HasErrnos kernel) where
  abbrev table : Process W → ℤ → Option File
  table p = t.table p.world

  call-table :
      (c : Call) (p : Process W) → changes_fds c ≡ false → table (call kernel c p).1 ≡ table p
  call-table c p h i k = pointwise k i
    where
      pointwise : (k : ℤ) → table (call kernel c p).1 k ≡ table p k
      pointwise k = ap (λ w. t.table w k) (call-world kernel c p) ∙ t.others_same c p.world h k

  pgid_set-table :
      (pid pgid : ℤ) (p : Process W)
      → table (pgid_set kernel strerror address pid pgid p).1 ≡ table p
  unfolding pgid_set
  pgid_set-table pid pgid p = elim (Bool-cases (is_neg pgid)) [
    | inl b ↦ rw (pgid_set, b) refl
    | inr b ↦ elim (Bool-cases (is_neg (call kernel (setpgid pid pgid) p).0)) [
      | inl c ↦ rw (pgid_set, b, c) (call-table (setpgid pid pgid) p refl)
      | inr c ↦ rw (pgid_set, b, c) (call-table (setpgid pid pgid) p refl)
    ]
  ]

  handle_loop-table :
      (handler : Handler) (sigs : List ℕ) (p : Process W)
      → table (handle_loop kernel handler sigs p).1 ≡ table p
  unfolding handle_loop
  handle_loop-table handler [] p = refl
  handle_loop-table handler (sig ∷ sigs) p =
      let c = sigaction sig handler in
      let q = (call kernel c p).1 in
      let same = call-table c p refl in
      elim (Bool-cases (is_neg (call kernel c p).0)) [
        | inl b ↦ rw (handle_loop, b) same
        | inr b ↦ rw (handle_loop, b) (handle_loop-table handler sigs q ∙ same)
      ]

  setdefault-table : (p : Process W) → table (signals_setdefault kernel p).1 ≡ table p
  unfolding signals_setdefault
  setdefault-table p = handle_loop-table sig_dfl signals_tohandle_rest p

  fork_child-redirected :
      (xs : Ptrs) (pgid : ℤ) (p : Process W)
      → let (r, q) = fork_child kernel strerror address (vector xs) pgid p in
        r ≡ pos 0 → table q ≡ redirected kernel t xs false (table p)
  unfolding fork_child
  fork_child-redirected xs pgid p =
      let (g, v) = pgid_set kernel strerror address (pos 0) pgid p in
      let (d, u) = signals_setdefault kernel v in
      let same = setdefault-table v ∙ pgid_set-table (pos 0) pgid p in
      elim (Bool-cases (is_neg g)) [
        | inl b ↦ rw (fork_child, b) (λ h. absurd (not_neg_zero g b h))
        | inr b ↦ elim (Bool-cases (is_neg d)) [
          | inl c ↦ rw (fork_child, b, c) (λ h. absurd (not_neg_zero d c h))
          | inr c ↦
              rw (fork_child, b, c)
                (λ h.
                  fds_redirect-redirected kernel strerror address t errnos xs false u h
                  ∙ ap (redirected kernel t xs false) same)
        ]
      ]

  -- Over a kernel with a table of open files and errnos above 0: if fork returns 0, as in the child,
  -- and c_fork_pid returns 0, then the child has the open files of its parent, as the redirections
  -- change them one after the other.
  pub fork_pid-redirected :
      (xs : Ptrs) (pgid : ℤ) (p : Process W)
      → (call kernel fork (call kernel fflush p).1).0 ≡ pos 0
      → let (r, q) = fork_pid kernel strerror address (vector xs) pgid p in
        r ≡ pos 0 → t.table q.world ≡ redirected kernel t xs false (t.table p.world)
  unfolding fork_pid
  fork_pid-redirected xs pgid p e =
      let v = (call kernel fflush p).1 in
      let u = (call kernel fork v).1 in
      let same = call-table fork v refl ∙ call-table fflush p refl in
      rw (fork_pid, e)
        (λ h. fork_child-redirected xs pgid u h ∙ ap (redirected kernel t xs false) same)
