-- ===== src/Paths/Files.antt =====
-- What is known of a file, and that none of these operations loses the terminal.
use schemesh.Base.{
  ℕ, ◌≡◌, ◌∙◌, sym, ap, ◌∷◌, refl, Bool, some, List, arith, inl, inr, ◌↔◌, Option-cases,
}
use schemesh.Base.Int.{ℤ, pos, neg, eq_ℤ}
use schemesh.Scheme.{Ptr, sfalse, fixnum}
use schemesh.Directory.{stat_type, format_of}
use schemesh.Posix.{Kernel, Process, ok, fail, stat, enoent, einval, Answer-cases}
use schemesh.Posix.Spawn.{bytes0}
use schemesh.Posix.Keeps.{
  IsKeeping, keep_rules, if-IsKeeping, bind-IsKeeping, option-IsKeeping, return-IsKeeping,
  c_errno-IsKeeping, c_errno_set-IsKeeping, call_word-IsKeeping,
}
use schemesh.Paths.{
  clear_errno, no_file, c_mkdir, file_delete, file_rename, file_type, pid_kill, euid_get, pid_get,
  pgid_get,
}

module _ {W : Type 0} (kernel : Kernel W) where
  -- `stat` and `lstat` return 0 where they succeed.
  abbrev pub StatsZero : Type 0
  StatsZero =
      (keep_symlinks : Bool) (path : List ℕ) (w : W) (r mode : ℕ)
      → (kernel (stat keep_symlinks path) w).0 ≡ ok r mode
      → r ≡ 0

  same : (path path' : List ℕ) → some path ≡ some path' → path ≡ path'
  same path path' e = ground arith

  ok-fail : (r mode e : ℕ) → ok r mode ≡ fail e → ⊥
  ok-fail r mode e h = ground arith

  fail-fail : (e n : ℕ) → fail e ≡ fail n → e ≡ n
  fail-fail e n h = ground arith

  other_errno : (q : Process W) → ((no_file kernel q).0 ≡ sfalse) ↔ (q.errno ≡ enoent)
  unfolding no_file
  other_errno q = ground arith

  -- Over a kernel whose `stat` returns 0 where it succeeds: the type of a path is #f exactly if the path
  -- ends in 0 and the kernel says ENOENT of it; each other failure is a number.
  pub file_type-sfalse :
      (x : Ptr) (keep_symlinks : Bool) (p : Process W)
      → StatsZero
      → ((file_type kernel x keep_symlinks p).0 ≡ sfalse) ↔ (
          (path : List ℕ) × (bytes0 x ≡ some path)
          × ((kernel (stat keep_symlinks path) p.world).0 ≡ fail enoent))
  unfolding file_type
  file_type-sfalse x keep_symlinks p zeros = elim (Option-cases (bytes0 x)) [
    | inl h ↦
        rw (file_type, h) ((λ e. absurd (ground arith)), λ (path, g, k). absurd (ground arith))
    | inr (path, h) ↦ elim (Answer-cases (kernel (stat keep_symlinks path) p.world).0) [
      | inl (r, mode, k) ↦
          let z = zeros keep_symlinks path p.world r mode k in
          rw (file_type, h, k, z)
            (
              (λ e. absurd (ground arith)),
              λ (path', g, k'). absurd (ok-fail r mode enoent (sym k ∙ rw (same path path' g) k')),
            )
      | inr (e, k) ↦
          let w = (kernel (stat keep_symlinks path) p.world).1 in
          let n =
            other_errno
              (record p { world = w; errno = e; trace = stat keep_symlinks path ∷ p.trace }) in
          rw (file_type, h, k)
            (
              (λ f. (path, refl, k ∙ ap fail (n.0 f))),
              λ (path', g, k'). n.1 (fail-fail e enoent (sym k ∙ rw (same path path' g) k')),
            )
    ]
  ]

  pub c_mkdir-IsKeeping : (x : Ptr) (mode : ℤ) → IsKeeping (c_mkdir kernel x mode)
  unfolding c_mkdir
  c_mkdir-IsKeeping x mode =
      option-IsKeeping (bytes0 x) (c_errno_set-IsKeeping einval) (λ dir. search keep_rules)

  pub file_delete-IsKeeping : (x : Ptr) → IsKeeping (file_delete kernel x)
  unfolding file_delete
  file_delete-IsKeeping x =
      option-IsKeeping (bytes0 x) (c_errno_set-IsKeeping einval) (λ name. search keep_rules)

  pub file_rename-IsKeeping : (x y : Ptr) → IsKeeping (file_rename kernel x y)
  unfolding file_rename
  file_rename-IsKeeping x y =
      option-IsKeeping (bytes0 x) (c_errno_set-IsKeeping einval) (λ old.
        option-IsKeeping (bytes0 y) (c_errno_set-IsKeeping einval) (λ new. search keep_rules))

  clear_errno-IsKeeping : IsKeeping {W = W} clear_errno
  clear_errno-IsKeeping = record { keeps = λ p. (refl, λ n. refl) }

  no_file-IsKeeping : IsKeeping (no_file kernel)
  unfolding no_file
  no_file-IsKeeping = bind-IsKeeping c_errno-IsKeeping (λ err.
      if-IsKeeping (eq_ℤ err (neg enoent))
        (bind-IsKeeping clear_errno-IsKeeping (λ r. return-IsKeeping sfalse))
        (return-IsKeeping (fixnum err)))

  pub file_type-IsKeeping : (x : Ptr) (link : Bool) → IsKeeping (file_type kernel x link)
  unfolding file_type
  file_type-IsKeeping x link =
      option-IsKeeping (bytes0 x)
        (bind-IsKeeping (c_errno_set-IsKeeping einval) (λ err. return-IsKeeping (fixnum err)))
        (λ path. bind-IsKeeping (call_word-IsKeeping kernel (stat link path)) (λ r.
          if-IsKeeping (eq_ℤ r.0 (pos 0))
            (return-IsKeeping (fixnum (pos (stat_type (format_of r.1))))) no_file-IsKeeping))

  pub pid_kill-IsKeeping :
      (pid : ℤ) (sig : ℕ) (pauses : Bool) → IsKeeping (pid_kill kernel pid sig pauses)
  unfolding pid_kill
  pid_kill-IsKeeping pid sig pauses = search keep_rules

  pub euid_get-IsKeeping : IsKeeping (euid_get kernel)
  unfolding euid_get
  euid_get-IsKeeping = search keep_rules

  pub pid_get-IsKeeping : IsKeeping (pid_get kernel)
  unfolding pid_get
  pid_get-IsKeeping = search keep_rules

  pub pgid_get-IsKeeping : (pid : ℤ) → IsKeeping (pgid_get kernel pid)
  unfolding pgid_get
  pgid_get-IsKeeping pid = search keep_rules
