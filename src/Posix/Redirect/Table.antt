-- ===== src/Posix/Redirect/Table.antt =====
-- What redirections do to the table of open files.
use schemesh.Base.{
  refl, ℕ, ◌≡◌, ◌∙◌, sym, ap, ◌<◌, Bool, true, false, bit_or, Option, none, some, List, inl, inr,
  if◌then◌else◌, arith, Bool-cases,
}
use schemesh.Base.Int.{ℤ, pos, negsuc, neg, negate, eq_ℤ, eq-ℤ, eq-ℤ-sym}
use schemesh.Scheme.{Ptr}
use schemesh.Posix.{
  Call, fail, dup, pipe, socketpair, execv, execvp, Kernel, Process, ok, dup2, close, open_file,
  set_cloexec, call, is_neg, HasErrnos,
}
use schemesh.Posix.Calls.{call-world, call-ok, call-errno}
use schemesh.Posix.Redirect.{
  dup2_close_on_exec, flag_close_on_exec, close_and_fail, redirect_to_fd, move_fd, redirect_to_path,
  write_c_errno, write_path_c_errno, o_cloexec,
}

neg_errno : (e : ℕ) → 0 < e → is_neg (neg e) ≡ true
neg_errno e h = ground arith

true-false : (b : Bool) → b ≡ true → b ≡ false → ⊥
true-false b h k = ground arith

negate-neg : (e : ℕ) → 0 < e → negate (neg e) ≡ pos 0 → ⊥
negate-neg e h k = ground arith

negate-zero : (r : ℤ) → is_neg r ≡ true → negate r ≡ pos 0 → ⊥
negate-zero (pos n) h k = ground arith
negate-zero (negsuc n) h k = ground arith

abbrev pub flags_with : ℕ → Bool → ℕ
flags_with open_flags close_on_exec = bit_or open_flags (if close_on_exec then o_cloexec else 0)

-- The calls that open or close fds.
abbrev pub changes_fds : Call → Bool
changes_fds (close fd) = true
changes_fds (dup2 old_fd new_fd) = true
changes_fds (open_file name flags) = true
changes_fds (dup fd) = true
changes_fds pipe = true
changes_fds socketpair = true
changes_fds (execv argv) = true
changes_fds (execvp argv) = true
changes_fds _ = false

-- A kernel with a table of open files. A file is known by its path and flags. `close` frees its fd
-- whatever it returns, as on Linux; dup2 and open that fail and the calls that open or close no fd change
-- nothing of the table.
pub record IsTable (W File : Type 0) (kernel : Kernel W) : Type 0 where
  pub table : W → ℤ → Option File
  pub file : List ℕ → ℕ → File
  pub dup2_ok :
      (old_fd new_fd : ℤ) (w : W) (r word : ℕ)
      → (kernel (dup2 old_fd new_fd) w).0 ≡ ok r word
      → let v = (kernel (dup2 old_fd new_fd) w).1 in
        (table v new_fd ≡ table w old_fd)
        × ((k : ℤ) → eq_ℤ k new_fd ≡ false → table v k ≡ table w k)
  pub closes :
      (fd : ℤ) (w : W)
      → let v = (kernel (close fd) w).1 in
        (table v fd ≡ none) × ((k : ℤ) → eq_ℤ k fd ≡ false → table v k ≡ table w k)
  pub opens :
      (name : List ℕ) (flags : ℕ) (w : W) (r word : ℕ)
      → (kernel (open_file name flags) w).0 ≡ ok r word
      → let v = (kernel (open_file name flags) w).1 in
        (table w (pos r) ≡ none)
        × (table v (pos r) ≡ some (file name flags))
        × ((k : ℤ) → eq_ℤ k (pos r) ≡ false → table v k ≡ table w k)
  pub dup2_failed :
      (old_fd new_fd : ℤ) (w : W) (e : ℕ)
      → (kernel (dup2 old_fd new_fd) w).0 ≡ fail e
      → (k : ℤ) → table (kernel (dup2 old_fd new_fd) w).1 k ≡ table w k
  pub open_failed :
      (name : List ℕ) (flags : ℕ) (w : W) (e : ℕ)
      → (kernel (open_file name flags) w).0 ≡ fail e
      → (k : ℤ) → table (kernel (open_file name flags) w).1 k ≡ table w k
  pub others_same :
      (c : Call) (w : W) → changes_fds c ≡ false → (k : ℤ) → table (kernel c w).1 k ≡ table w k

module _ {W File : Type 0} (kernel : Kernel W) (t : IsTable W File kernel) where
  -- From the state w to the state v only the entry of fd changes, to a given one.
  abbrev pub Changes : W → W → ℤ → Option File → Type 0
  Changes w v fd entry =
      (t.table v fd ≡ entry) × ((k : ℤ) → eq_ℤ k fd ≡ false → t.table v k ≡ t.table w k)

  pub call-dup2 :
      (old_fd new_fd : ℤ) (p : Process W)
      → let (r, q) = call kernel (dup2 old_fd new_fd) p in
        is_neg r ≡ false → Changes p.world q.world new_fd (t.table p.world old_fd)
  call-dup2 old_fd new_fd p h =
      let c = dup2 old_fd new_fd in
      let (r, word, e, z) = call-ok kernel c p h in
      rw (call-world kernel c p) (t.dup2_ok old_fd new_fd p.world r word e)

  pub call-close :
      (fd : ℤ) (p : Process W) → Changes p.world (call kernel (close fd) p).1.world fd none
  call-close fd p = rw (call-world kernel (close fd) p) (t.closes fd p.world)

module _ {W File : Type 0} (kernel : Kernel W) (strerror : ℕ → List ℕ) (address : Ptr → ℕ)
    (t : IsTable W File kernel) (errnos : HasErrnos kernel) where
  flag_close-same :
      (fd : ℤ) (p : Process W)
      → let (r, q) = flag_close_on_exec kernel strerror address fd p in
        is_neg r ≡ false → (k : ℤ) → t.table q.world k ≡ t.table p.world k
  unfolding flag_close_on_exec close_and_fail
  flag_close-same fd p = elim (Bool-cases (is_neg (call kernel (set_cloexec fd) p).0)) [
    | inl b ↦
        let e = neg_errno _ (call-errno kernel (set_cloexec fd) p errnos b) in
        rw (flag_close_on_exec, b) (λ h. absurd (true-false _ e h))
    | inr b ↦
        rw (flag_close_on_exec, b, call-world kernel (set_cloexec fd) p)
          (λ h k. t.others_same (set_cloexec fd) p.world refl k)
  ]

  dup2_close-Changes :
      (old_fd new_fd : ℤ) (flag : Bool) (p : Process W)
      → let (r, q) = dup2_close_on_exec kernel strerror address old_fd new_fd flag p in
        is_neg r ≡ false → Changes kernel t p.world q.world new_fd (t.table p.world old_fd)
  unfolding dup2_close_on_exec
  dup2_close-Changes old_fd new_fd flag p =
      let c = dup2 old_fd new_fd in
      elim (Bool-cases (is_neg (call kernel c p).0)) [
        | inl b ↦
            let e = neg_errno _ (call-errno kernel c p errnos b) in
            rw (dup2_close_on_exec, b) (λ h. absurd (true-false _ e h))
        | inr b ↦
            let moved = call-dup2 kernel t old_fd new_fd p b in
            elim (Bool-cases flag) [
              | inr f ↦ rw (dup2_close_on_exec, b, f) (λ h. moved)
              | inl f ↦
                  rw (dup2_close_on_exec, b, f)
                    (λ h.
                      let same = flag_close-same new_fd (call kernel c p).1 h in
                      (same new_fd ∙ moved.0, λ k n. same k ∙ moved.1 k n))
            ]
      ]

  pub redirect_to_fd-Changes :
      (fd to_fd : ℕ) (flag : Bool) (p : Process W)
      → let (r, q) = redirect_to_fd kernel strerror address fd to_fd flag p in
        r ≡ pos 0 → Changes kernel t p.world q.world (pos fd) (t.table p.world (pos to_fd))
  unfolding redirect_to_fd write_c_errno
  redirect_to_fd-Changes fd to_fd flag p =
      elim (Bool-cases
        (is_neg (dup2_close_on_exec kernel strerror address (pos to_fd) (pos fd) flag p).0)) [
          | inl b ↦ rw (redirect_to_fd, b) (λ h. absurd (ground arith))
          | inr b ↦ rw (redirect_to_fd, b) (λ h. dup2_close-Changes (pos to_fd) (pos fd) flag p b)
        ]

  -- A file was opened with the fd temp_fd.
  abbrev pub Opened : W → W → ℤ → Option File → Type 0
  Opened w v temp_fd entry = (t.table w temp_fd ≡ none) × Changes kernel t w v temp_fd entry

  move_fd-Changes :
      (w : W) (temp_fd : ℤ) (fd : ℕ) (flag : Bool) (entry : Option File) (p : Process W)
      → Opened w p.world temp_fd entry
      → let (r, q) = move_fd kernel strerror address temp_fd fd flag p in
        is_neg r ≡ false → Changes kernel t w q.world (pos fd) entry
  unfolding move_fd
  move_fd-Changes w temp_fd fd flag entry p (free, (filled, others)) =
      elim (Bool-cases (eq_ℤ temp_fd (pos fd))) [
        | inl b ↦
            let same = eq-ℤ temp_fd (pos fd) b in
            rw (move_fd, b)
              (λ h. (ap (t.table p.world) (sym same) ∙ filled, λ k n. others k (rw same n)))
        | inr b ↦
            rw (move_fd, b)
              (λ h.
                let q = (dup2_close_on_exec kernel strerror address temp_fd (pos fd) flag p).1 in
                let (moved, kept) = dup2_close-Changes temp_fd (pos fd) flag p h in
                let (freed, still) = call-close kernel t temp_fd q in
                (
                  still (pos fd) (eq-ℤ-sym temp_fd (pos fd) b) ∙ moved ∙ filled,
                  λ k n. elim (Bool-cases (eq_ℤ k temp_fd)) [
                    | inl e ↦ let s = eq-ℤ k temp_fd e in rw s (freed ∙ sym free)
                    | inr e ↦ still k e ∙ kept k n ∙ others k e
                  ],
                ))
      ]

  pub call-Opened :
      (name : List ℕ) (flags : ℕ) (p : Process W)
      → let (r, q) = call kernel (open_file name flags) p in
        is_neg r ≡ false → Opened p.world q.world r (some (t.file name flags))
  call-Opened name flags p b =
      let c = open_file name flags in
      let (r, word, e, z) = call-ok kernel c p b in
      let (free, filled, others) = t.opens name flags p.world r word e in
      rw (z, call-world kernel c p) (free, (filled, others))

  pub redirect_to_path-Changes :
      (fd open_flags : ℕ) (name : List ℕ) (flag : Bool) (p : Process W)
      → let (r, q) = redirect_to_path kernel strerror address fd open_flags name flag p in
        r ≡ pos 0
        → Changes kernel t p.world q.world
            (pos fd)
            (some (t.file name (flags_with open_flags flag)))
  unfolding redirect_to_path write_path_c_errno
  redirect_to_path-Changes fd open_flags name flag p =
      let c = open_file name (flags_with open_flags flag) in
      elim (Bool-cases (is_neg (call kernel c p).0)) [
        | inl b ↦
            let e = call-errno kernel c p errnos b in
            rw (redirect_to_path, b) (λ h. absurd (negate-neg _ e h))
        | inr b ↦
            let temp_fd = (call kernel c p).0 in
            let q = (call kernel c p).1 in
            elim (Bool-cases (is_neg (move_fd kernel strerror address temp_fd fd flag q).0)) [
              | inl m ↦ rw (redirect_to_path, b, m) (λ h. absurd (negate-zero _ m h))
              | inr m ↦
                  rw (redirect_to_path, b, m)
                    (λ h.
                      move_fd-Changes p.world temp_fd fd flag _ q
                        (call-Opened name (flags_with open_flags flag) p b) m)
            ]
      ]
