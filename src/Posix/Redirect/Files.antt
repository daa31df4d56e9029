-- ===== src/Posix/Redirect/Files.antt =====
-- A kernel that keeps a table of open files, for the tests of redirections.
use schemesh.Base.{
  ℕ, ◌≡◌, refl, sym, true, false, Option, none, some, List, [], if◌then◌else◌, arith, Option-cases,
  inl, inr, ◌<◌, ltb,
}
use schemesh.Base.Int.{ℤ, pos, negsuc, eq_ℤ}
use schemesh.Base.Text.{codes}
use schemesh.Posix.{Call, Kernel, Process, Answer, HasErrnos, ok, fail, dup2, close, open_file}
use schemesh.Posix.Redirect.Table.{IsTable, changes_fds}

abbrev pub File : Type 0
File = List ℕ × ℕ

abbrev pub Opened : Type 0
Opened = ℤ → Option File

abbrev pub stored : Opened → ℤ → Option File → Opened
stored w fd entry k = if eq_ℤ k fd then entry else w k

-- dup2 of a closed fd fails; open uses the fd 5, and fails where that is taken.
abbrev pub duplicated : Option File → ℤ → Opened → Answer × Opened
duplicated none new_fd w = (fail 9, w)
duplicated (some f) new_fd w = (ok 0 0, stored w new_fd (some f))

abbrev pub opened : Option File → File → Opened → Answer × Opened
opened none f w = (ok 5 0, stored w (pos 5) (some f))
opened (some g) f w = (fail 24, w)

abbrev pub table_kernel : Kernel Opened
table_kernel (open_file name flags) w = opened (w (pos 5)) (name, flags) w
table_kernel (dup2 old_fd new_fd) w = duplicated (w old_fd) new_fd w
table_kernel (close fd) w = (ok 0 0, stored w fd none)
table_kernel c w = (ok 0 0, w)

eq_ℤ_refl : (k : ℤ) → eq_ℤ k k ≡ true
eq_ℤ_refl (pos n) = ground arith
eq_ℤ_refl (negsuc n) = ground arith

abbrev pub Stores : Opened → Opened → ℤ → Option File → Type 0
Stores w v fd entry = (v fd ≡ entry) × ((k : ℤ) → eq_ℤ k fd ≡ false → v k ≡ w k)

pub stored-Stores :
    (w : Opened) (fd : ℤ) (entry : Option File) → Stores w (stored w fd entry) fd entry
stored-Stores w fd entry = (rw (eq_ℤ_refl fd) refl, λ k n. rw n refl)

not_ok : (e r word : ℕ) → fail e ≡ ok r word → ⊥
not_ok e r word h = ground arith

pub duplicated-Stores :
    (old_fd new_fd : ℤ) (w : Opened) (r word : ℕ)
    → (table_kernel (dup2 old_fd new_fd) w).0 ≡ ok r word
    → Stores w (table_kernel (dup2 old_fd new_fd) w).1 new_fd (w old_fd)
duplicated-Stores old_fd new_fd w r word = elim (Option-cases (w old_fd)) [
  | inl e ↦ rw e (λ h. absurd (not_ok 9 r word h))
  | inr (f, e) ↦ rw e (λ h. stored-Stores w new_fd (some f))
]

pub opened-Stores :
    (name : List ℕ) (flags : ℕ) (w : Opened) (r word : ℕ)
    → (table_kernel (open_file name flags) w).0 ≡ ok r word
    → let v = (table_kernel (open_file name flags) w).1 in
      (w (pos r) ≡ none)
      × (v (pos r) ≡ some (name, flags))
      × ((k : ℤ) → eq_ℤ k (pos r) ≡ false → v k ≡ w k)
opened-Stores name flags w r word = elim (Option-cases (w (pos 5))) [
  | inl e ↦ rw e (λ h.
      let five : 5 ≡ r = ground arith in
      let (here, others) = stored-Stores w (pos 5) (some (name, flags)) in
      rw (sym five) (e, here, others))
  | inr (f, e) ↦ rw e (λ h. absurd (not_ok 24 r word h))
]

not_fail : (r word e : ℕ) → ok r word ≡ fail e → ⊥
not_fail r word e h = ground arith

pub duplicated_failed :
    (old_fd new_fd : ℤ) (w : Opened) (e : ℕ)
    → (table_kernel (dup2 old_fd new_fd) w).0 ≡ fail e
    → (k : ℤ) → (table_kernel (dup2 old_fd new_fd) w).1 k ≡ w k
duplicated_failed old_fd new_fd w e = elim (Option-cases (w old_fd)) [
  | inl n ↦ rw n (λ h k. refl)
  | inr (f, n) ↦ rw n (λ h. absurd (not_fail 0 0 e h))
]

pub opened_failed :
    (name : List ℕ) (flags : ℕ) (w : Opened) (e : ℕ)
    → (table_kernel (open_file name flags) w).0 ≡ fail e
    → (k : ℤ) → (table_kernel (open_file name flags) w).1 k ≡ w k
opened_failed name flags w e = elim (Option-cases (w (pos 5))) [
  | inl n ↦ rw n (λ h. absurd (not_fail 5 0 e h))
  | inr (f, n) ↦ rw n (λ h k. refl)
]

above : (m e : ℕ) → 0 < m → fail m ≡ fail e → 0 < e
above m e k h = ground arith

pub table_kernel-HasErrnos : HasErrnos table_kernel
table_kernel-HasErrnos (open_file name flags) w e = elim (Option-cases (w (pos 5))) [
  | inl n ↦ rw n (λ h. absurd (not_fail 5 0 e h))
  | inr (f, n) ↦ rw n (λ h. above 24 e (ground arith) h)
]
table_kernel-HasErrnos (dup2 old_fd new_fd) w e = elim (Option-cases (w old_fd)) [
  | inl n ↦ rw n (λ h. above 9 e (ground arith) h)
  | inr (f, n) ↦ rw n (λ h. absurd (not_fail 0 0 e h))
]
table_kernel-HasErrnos (close fd) w e = λ h. absurd (not_fail 0 0 e h)
table_kernel-HasErrnos _ w e = λ h. absurd (not_fail 0 0 e h)

pub others_keep :
    (c : Call) (w : Opened) → changes_fds c ≡ false → (k : ℤ) → (table_kernel c w).1 k ≡ w k
others_keep (open_file name flags) w h k = absurd (ground arith)
others_keep (dup2 old_fd new_fd) w h k = absurd (ground arith)
others_keep (close fd) w h k = absurd (ground arith)
others_keep _ w h k = refl

abbrev pub table_kernel-IsTable : IsTable Opened File table_kernel
table_kernel-IsTable = record {
  table = λ w. w;
  file = λ name flags. (name, flags);
  dup2_ok = duplicated-Stores;
  closes = λ fd w. stored-Stores w fd none;
  opens = opened-Stores;
  dup2_failed = duplicated_failed;
  open_failed = opened_failed;
  others_same = others_keep;
}

-- The fds 0, 1 and 2 are a terminal.
abbrev pub on_terminal : Opened
on_terminal (pos n) = if ltb n 3 then some (codes "/dev/tty", 2) else none
on_terminal (negsuc n) = none

abbrev pub shell : Process Opened
shell = record {
  world = on_terminal;
  errno = 0;
  tty_fd = negsuc 0;
  tty_pgid = negsuc 0;
  environ = [];
  trace = [];
}
