-- ===== src/Posix/Redirect/Frame.antt =====
-- Redirections, failed ones too, leave the other fds as they are.
use schemesh.Base.{
  ℕ, ◌≡◌, refl, ◌∙◌, sym, Bool, false, bit_and, Option, none, some, List, ◌||◌, inl, inr, arith,
  Bool-cases, Option-cases, ◌==◌,
}
use schemesh.Base.Text.{codes}
use schemesh.Base.Int.{ℤ, pos, eq_ℤ, eq-ℤ}
use schemesh.Scheme.{Ptr, Ptrs, vector, nil, cons}
use schemesh.Posix.{Kernel, Process, HasErrnos, dup2, open_file, set_cloexec, write, call, is_neg}
use schemesh.Posix.Calls.{call-world, call-fail}
use schemesh.Posix.Redirect.{
  dup2_close_on_exec, flag_close_on_exec, close_and_fail, redirect_to_fd, move_fd, redirect_to_path,
  write_c_errno, write_path_c_errno, write_invalid_redirection, redirect_to, fd_redirect, fds_loop,
  fds_redirect, target, target_of, fd_of, flags_of, count, Target, closed, other_fd, path, invalid,
}
use schemesh.Posix.Redirect.Table.{IsTable, Opened, flags_with, call-dup2, call-close, call-Opened}

-- A redirection is one of the fd k.
unfoldable pub is_fd : Ptr → ℤ → Bool
is_fd from_fd k = elim (fd_of from_fd) [ none ↦ false | some fd ↦ eq_ℤ k (pos fd) ]

is_fd-some :
    (from_fd : Ptr) (fd : ℕ) (k : ℤ) → fd_of from_fd ≡ some fd → is_fd from_fd k ≡ eq_ℤ k (pos fd)
unfolding is_fd
is_fd-some from_fd fd k e = rw (is_fd, e) refl

-- One of the redirections is one of the fd k.
abbrev pub is_redirected : Ptrs → ℤ → Bool
is_redirected (cons from_fd (cons direction_ch (cons to (cons bytevector0 rest)))) k =
    is_fd from_fd k || is_redirected rest k
is_redirected _ k = false

module _ {W File : Type 0} (kernel : Kernel W) (strerror : ℕ → List ℕ) (address : Ptr → ℕ)
    (t : IsTable W File kernel) (errnos : HasErrnos kernel) where
  abbrev Same : W → W → Type 0
  Same w v = (k : ℤ) → t.table v k ≡ t.table w k

  abbrev Only : W → W → ℤ → Type 0
  Only w v fd = (k : ℤ) → eq_ℤ k fd ≡ false → t.table v k ≡ t.table w k

  say-Same :
      (fd : ℤ) (bytes : List ℕ) (p : Process W)
      → Same p.world (call kernel (write fd bytes) p).1.world
  say-Same fd bytes p =
      rw (call-world kernel (write fd bytes) p) (t.others_same (write fd bytes) p.world refl)

  flag_close-Only :
      (fd : ℤ) (p : Process W)
      → Only p.world (flag_close_on_exec kernel strerror address fd p).1.world fd
  unfolding flag_close_on_exec close_and_fail
  flag_close-Only fd p =
      let same : Same p.world (call kernel (set_cloexec fd) p).1.world =
        rw (call-world kernel (set_cloexec fd) p) (t.others_same (set_cloexec fd) p.world refl) in
      elim (Bool-cases (is_neg (call kernel (set_cloexec fd) p).0)) [
        | inl b ↦
            let q = (call kernel (set_cloexec fd) p).1 in
            rw (flag_close_on_exec, b) (λ k n. (call-close kernel t fd q).1 k n ∙ same k)
        | inr b ↦ rw (flag_close_on_exec, b) (λ k n. same k)
      ]

  dup2_close-Only :
      (old_fd new_fd : ℤ) (flag : Bool) (p : Process W)
      → Only p.world
          (dup2_close_on_exec kernel strerror address old_fd new_fd flag p).1.world
          new_fd
  unfolding dup2_close_on_exec
  dup2_close-Only old_fd new_fd flag p =
      let c = dup2 old_fd new_fd in
      let q = (call kernel c p).1 in
      elim (Bool-cases (is_neg (call kernel c p).0)) [
        | inl b ↦
            let (e, z) = call-fail kernel c p b in
            let same : Same p.world q.world =
              rw (call-world kernel c p) (t.dup2_failed old_fd new_fd p.world e z) in
            rw (dup2_close_on_exec, b) (λ k n. same k)
        | inr b ↦
            let moved = call-dup2 kernel t old_fd new_fd p b in
            elim (Bool-cases flag) [
              | inr f ↦ rw (dup2_close_on_exec, b, f) moved.1
              | inl f ↦
                  rw (dup2_close_on_exec, b, f) (λ k n. flag_close-Only new_fd q k n ∙ moved.1 k n)
            ]
      ]

  move_fd-Only :
      (w : W) (temp_fd : ℤ) (fd : ℕ) (flag : Bool) (entry : Option File) (p : Process W)
      → Opened kernel strerror address t errnos w p.world temp_fd entry
      → Only w (move_fd kernel strerror address temp_fd fd flag p).1.world (pos fd)
  unfolding move_fd
  move_fd-Only w temp_fd fd flag entry p (free, (filled, others)) =
      elim (Bool-cases (eq_ℤ temp_fd (pos fd))) [
        | inl b ↦ rw (move_fd, b) (λ k n. others k (rw (eq-ℤ temp_fd (pos fd) b) n))
        | inr b ↦
            let q = (dup2_close_on_exec kernel strerror address temp_fd (pos fd) flag p).1 in
            let (freed, still) = call-close kernel t temp_fd q in
            let kept = dup2_close-Only temp_fd (pos fd) flag p in
            rw (move_fd, b)
              (λ k n. elim (Bool-cases (eq_ℤ k temp_fd)) [
                | inl e ↦ let s = eq-ℤ k temp_fd e in rw s (freed ∙ sym free)
                | inr e ↦ still k e ∙ kept k n ∙ others k e
              ])
      ]

  write_c_errno-Same :
      (err : ℤ) (p : Process W) → Same p.world (write_c_errno kernel strerror address err p).1.world
  unfolding write_c_errno
  write_c_errno-Same err p k = say-Same _ _ _ k ∙ say-Same _ _ _ k ∙ say-Same _ _ p k

  write_path_c_errno-Same :
      (name : List ℕ) (err : ℤ) (suffix_msg : List ℕ) (p : Process W)
      → Same p.world (write_path_c_errno kernel strerror address name err suffix_msg p).1.world
  unfolding write_path_c_errno
  write_path_c_errno-Same name err suffix_msg p k =
      say-Same _ _ _ k ∙ say-Same _ _ _ k ∙ say-Same _ _ _ k ∙ say-Same _ _ _ k ∙ say-Same _ _ p k

  invalid-Same :
      (label : List ℕ) (value : Ptr) (p : Process W)
      → Same p.world (write_invalid_redirection kernel strerror address label value p).1.world
  unfolding write_invalid_redirection
  invalid-Same label value p k =
      say-Same _ _ _ k ∙ say-Same _ _ _ k ∙ say-Same _ _ _ k ∙ say-Same _ _ p k

  redirect_to_fd-Only :
      (fd to_fd : ℕ) (flag : Bool) (p : Process W)
      → Only p.world (redirect_to_fd kernel strerror address fd to_fd flag p).1.world (pos fd)
  unfolding redirect_to_fd
  redirect_to_fd-Only fd to_fd flag p =
      let moved = dup2_close-Only (pos to_fd) (pos fd) flag p in
      elim (Bool-cases
        (is_neg (dup2_close_on_exec kernel strerror address (pos to_fd) (pos fd) flag p).0)) [
          | inl b ↦ rw (redirect_to_fd, b) (λ k n. write_c_errno-Same (pos 1) _ k ∙ moved k n)
          | inr b ↦ rw (redirect_to_fd, b) moved
        ]

  redirect_to_path-Only :
      (fd open_flags : ℕ) (name : List ℕ) (flag : Bool) (p : Process W)
      → Only p.world
          (redirect_to_path kernel strerror address fd open_flags name flag p).1.world
          (pos fd)
  unfolding redirect_to_path
  redirect_to_path-Only fd open_flags name flag p =
      let flags = flags_with open_flags flag in
      let c = open_file name flags in
      let q = (call kernel c p).1 in
      elim (Bool-cases (is_neg (call kernel c p).0)) [
        | inl b ↦
            let (e, z) = call-fail kernel c p b in
            let same : Same p.world q.world =
              rw (call-world kernel c p) (t.open_failed name flags p.world e z) in
            rw (redirect_to_path, b) (λ k n. write_path_c_errno-Same _ _ _ q k ∙ same k)
        | inr b ↦
            let temp_fd = (call kernel c p).0 in
            let opened = call-Opened kernel strerror address t errnos name flags p b in
            let moved = move_fd-Only p.world temp_fd fd flag _ q opened in
            elim (Bool-cases (is_neg (move_fd kernel strerror address temp_fd fd flag q).0)) [
              | inl m ↦
                  rw (redirect_to_path, b, m) (λ k n. write_path_c_errno-Same _ _ _ _ k ∙ moved k n)
              | inr m ↦ rw (redirect_to_path, b, m) moved
            ]
      ]

  redirect_to-Only :
      (to : Target) (fd open_flags : ℕ) (shown : Ptr) (flag : Bool) (p : Process W)
      → Only p.world
          (redirect_to kernel strerror address to fd open_flags shown flag p).1.world
          (pos fd)
  unfolding redirect_to
  redirect_to-Only closed fd open_flags shown flag p = (call-close kernel t (pos fd) p).1
  redirect_to-Only (other_fd n) fd open_flags shown flag p = redirect_to_fd-Only fd n flag p
  redirect_to-Only (path name) fd open_flags shown flag p =
      redirect_to_path-Only fd open_flags name flag p
  redirect_to-Only invalid fd open_flags shown flag p =
      λ k n. invalid-Same (codes "to_fd_or_bytevector") shown p k

  fd_redirect-frame :
      (from_fd direction_ch to : Ptr) (flag : Bool) (p : Process W) (k : ℤ)
      → is_fd from_fd k ≡ false
      → t.table (fd_redirect kernel strerror address from_fd direction_ch to flag p).1.world k
        ≡ t.table p.world k
  unfolding fd_redirect
  fd_redirect-frame from_fd direction_ch to flag p k = elim (Option-cases (fd_of from_fd)) [
    | inl e ↦ rw (fd_redirect, e) (λ n. invalid-Same (codes "from_fd") from_fd p k)
    | inr (fd, e) ↦ elim (Option-cases (flags_of direction_ch)) [
      | inl g ↦ rw (fd_redirect, e, g) (λ n. invalid-Same (codes "direction_ch") direction_ch p k)
      | inr (open_flags, g) ↦
          rw (fd_redirect, e, g)
            (λ n.
              redirect_to-Only (target_of to) fd open_flags to flag p k
                (sym (is_fd-some from_fd fd k e) ∙ n))
    ]
  ]

  fds_loop-frame :
      (xs : Ptrs) (flag : Bool) (p : Process W) (k : ℤ)
      → is_redirected xs k ≡ false
      → t.table (fds_loop kernel strerror address xs flag p).1.world k ≡ t.table p.world k
  unfolding fds_loop
  fds_loop-frame nil flag p k n = refl
  fds_loop-frame (cons a nil) flag p k n = refl
  fds_loop-frame (cons a (cons b nil)) flag p k n = refl
  fds_loop-frame (cons a (cons b (cons c nil))) flag p k n = refl
  fds_loop-frame (cons a (cons b (cons c (cons d rest)))) flag p k n =
      let (r, q) = fd_redirect kernel strerror address a b (target c d) flag p in
      let first = fd_redirect-frame a b (target c d) flag p k (ground arith) in
      let others = fds_loop-frame rest flag q k (ground arith) in
      elim (Bool-cases (eq_ℤ r (pos 0))) [
        | inl e ↦ rw (fds_loop, e) (others ∙ first)
        | inr e ↦ rw (fds_loop, e) first
      ]

  -- Over a kernel with a table of open files and errnos above 0: whatever fds_redirect returns, an fd
  -- that no redirection of the vector is of stands for the same file as before, or is free as before.
  -- In particular no fd that a file was opened with stays open, whichever call failed.
  pub fds_redirect-frame :
      (xs : Ptrs) (flag : Bool) (p : Process W) (k : ℤ)
      → is_redirected xs k ≡ false
      → t.table (fds_redirect kernel strerror address (vector xs) flag p).1.world k
        ≡ t.table p.world k
  unfolding fds_redirect
  fds_redirect-frame xs flag p k n = elim (Bool-cases (bit_and (count xs) 3 == 0)) [
    | inl b ↦ rw (fds_redirect, b) (fds_loop-frame xs flag p k n)
    | inr b ↦ rw (fds_redirect, b) (invalid-Same (codes "vector_fds_redirect") (vector xs) p k)
  ]
