-- ===== src/Posix/Spawn/Outcomes.antt =====
-- What spawning and forking return, and what a failed redirection does to the child.
use schemesh.Base.{
  ℕ, suc, ◌≡◌, refl, ap, Bool, true, false, none, some, List, [], ◌∷◌, arith, ◌⊎◌, inl, inr,
  Bool-cases, bit_and, bit_or,
}
use schemesh.Base.Int.{ℤ, pos, neg}
use schemesh.Scheme.{Ptr, Ptrs, vector, cons, sfalse}
use schemesh.Posix.{
  Kernel, Process, Call, Answer, Handler, Answer-cases, ok, fail, call, is_neg, setpgid, sigaction,
  sig_dfl, open_file, fork, fflush, execv, execvp, einval, enomem,
}
use schemesh.Posix.Redirect.{fds_redirect, path, target, target_of, fd_of, flags_of, count}
use schemesh.Posix.Redirect.Results.{fd_redirect_unopened}
use schemesh.Posix.Spawn.{
  vector_to_c_argz, returned, executing, pgid_set, fork_child, fork_pid, exec_program,
  cmd_spawn_or_exec, cmd_exec,
}
use schemesh.Posix.Signals.{handle_loop, signals_setdefault, signals_tohandle_rest}

-- The kernel's state behind the fflush in front of a fork.
abbrev pub call_state : {W : Type 0} → Kernel W → Process W → W
call_state kernel p = (kernel fflush p.world).1

abbrev pub is_failure : Answer → Bool
is_failure (ok r word) = false
is_failure (fail e) = true

abbrev pub is_open : Call → Bool
is_open (open_file name flags) = true
is_open _ = false

abbrev pub is_exec : Call → Bool
is_exec (execv argv) = true
is_exec (execvp argv) = true
is_exec _ = false

module _ {W : Type 0} (kernel : Kernel W) (strerror : ℕ → List ℕ) (address : Ptr → ℕ) where
  -- A command line that is no vector of bytevectors that end in 0, or that is empty, is an error and
  -- no call is made.
  pub cmd_spawn_or_exec_invalid :
      (cmdline dir fds environ : Ptr) (existing_pgid : ℤ) (is_spawn : Bool) (p : Process W)
      → (vector_to_c_argz cmdline ≡ none) ⊎ (vector_to_c_argz cmdline ≡ some [])
      → let r =
          cmd_spawn_or_exec kernel strerror address cmdline dir fds environ existing_pgid is_spawn
            p in
        ((r.0 ≡ returned (neg enomem)) ⊎ (r.0 ≡ returned (neg einval))) × (r.1 ≡ p)
  unfolding cmd_spawn_or_exec
  cmd_spawn_or_exec_invalid cmdline dir fds environ existing_pgid is_spawn p h = ground arith

  -- The exec without a fork: if a redirection failed with a result above 0, the program is executed
  -- all the same, with whatever was redirected.
  pub cmd_exec_redirect_failed :
      (cmdline fds environ : Ptr) (p q : Process W) (n : ℕ) (program : List ℕ)
      (args : List (List ℕ)) (env : List (List ℕ))
      → vector_to_c_argz cmdline ≡ some (program ∷ args)
      → vector_to_c_argz environ ≡ some env
      → fds_redirect kernel strerror address fds false p ≡ (pos (suc n), q)
      → cmd_exec kernel strerror address cmdline sfalse fds environ p
        ≡ exec_program kernel strerror address false p.environ program (program ∷ args) (some env) q
  unfolding cmd_exec
  cmd_exec_redirect_failed cmdline fds environ p q n program args env a b c = ground arith

  call_succeeds :
      (c : Call) (p : Process W)
      → is_failure (kernel c p.world).0 ≡ false
      → is_neg (call kernel c p).0 ≡ false
  call_succeeds c p h = elim (Answer-cases (kernel c p.world).0) [
    | inl (r, word, e) ↦ ground arith
    | inr (e, k) ↦ absurd (ground arith)
  ]

  -- Where all calls succeed but those that open a file.
  module _
      (succeeds : (c : Call) (w : W) → is_open c ≡ false → is_failure (kernel c w).0 ≡ false) where
    pgid_set_succeeds :
        (pid pgid : ℤ) (p : Process W)
        → is_neg (pgid_set kernel strerror address pid pgid p).0 ≡ false
    unfolding pgid_set
    pgid_set_succeeds pid pgid p = elim (Bool-cases (is_neg pgid)) [
      | inl b ↦ rw (pgid_set, b) refl
      | inr b ↦
          let h = call_succeeds (setpgid pid pgid) p (succeeds (setpgid pid pgid) p.world refl) in
          rw (pgid_set, b, h) h
    ]

    handle_loop_succeeds :
        (handler : Handler) (sigs : List ℕ) (p : Process W)
        → is_neg (handle_loop kernel handler sigs p).0 ≡ false
    unfolding handle_loop
    handle_loop_succeeds handler [] p = refl
    handle_loop_succeeds handler (sig ∷ sigs) p =
        let c = sigaction sig handler in
        rw (handle_loop, call_succeeds c p (succeeds c p.world refl))
          (handle_loop_succeeds handler sigs (call kernel c p).1)

    setdefault_succeeds : (p : Process W) → is_neg (signals_setdefault kernel p).0 ≡ false
    unfolding signals_setdefault
    setdefault_succeeds p = handle_loop_succeeds sig_dfl signals_tohandle_rest p

    child_redirects :
        (fds : Ptr) (pgid : ℤ) (e : ℕ)
        → ((q : Process W) → (fds_redirect kernel strerror address fds false q).0 ≡ pos e)
        → (p : Process W) → (fork_child kernel strerror address fds pgid p).0 ≡ pos e
    unfolding fork_child
    child_redirects fds pgid e h p =
        let v = (pgid_set kernel strerror address (pos 0) pgid p).1 in
        rw (fork_child, pgid_set_succeeds (pos 0) pgid p, setdefault_succeeds v)
          (h (signals_setdefault kernel v).1)

    child_forked :
        (fds : Ptr) (pgid : ℤ) (e : ℕ) (p : Process W)
        → ((q : Process W) → (fds_redirect kernel strerror address fds false q).0 ≡ pos e)
        → ((w : W) → (kernel fork w).0 ≡ ok 0 0)
        → (fork_pid kernel strerror address fds pgid p).0 ≡ pos e
    unfolding fork_pid
    child_forked fds pgid e p h forked =
        let v = (call kernel fflush p).1 in
        let pid : (call kernel fork v).0 ≡ pos 0 = (let k = forked v.world in ground arith) in
        rw (fork_pid, pid) (child_redirects fds pgid e h (call kernel fork v).1)

  -- A first redirection to a path that cannot be opened ends the redirections with the errno.
  first_unopened :
      (from_fd direction_ch to bytevector0 : Ptr) (more : Ptrs) (fd flags e : ℕ) (name : List ℕ)
      → fd_of from_fd ≡ some fd
      → flags_of direction_ch ≡ some flags
      → target_of (target to bytevector0) ≡ path name
      → bit_and (count (cons from_fd (cons direction_ch (cons to (cons bytevector0 more))))) 3 ≡ 0
      → ((c : Call) (w : W) → is_open c ≡ true → (kernel c w).0 ≡ fail (suc e))
      → (p : Process W)
      → (fds_redirect kernel strerror address
          (vector (cons from_fd (cons direction_ch (cons to (cons bytevector0 more)))))
          false
          p).0
        ≡ pos (suc e)
  unfolding fds_redirect
  first_unopened from_fd direction_ch to bytevector0 more fd flags e name a b c whole unopened p =
      let r =
        fd_redirect_unopened kernel strerror address from_fd direction_ch (target to bytevector0)
          false p fd flags (suc e) name a b c
          (unopened (open_file name (bit_or flags 0)) p.world refl) in
      ground (arith, r, whole)

  -- The exec without a fork of a valid command line, with an environment and no directory: if the
  -- redirections gave a number above 0, the program is executed all the same, where execv and
  -- execvp succeed.
  pub cmd_exec_redirect_ignored :
      (cmdline fds environ : Ptr) (p q : Process W) (n : ℕ) (program : List ℕ)
      (args : List (List ℕ)) (env : List (List ℕ))
      → vector_to_c_argz cmdline ≡ some (program ∷ args)
      → vector_to_c_argz environ ≡ some env
      → fds_redirect kernel strerror address fds false p ≡ (pos (suc n), q)
      → ((c : Call) (w : W) → is_exec c ≡ true → is_failure (kernel c w).0 ≡ false)
      → (cmd_exec kernel strerror address cmdline sfalse fds environ p).0
        ≡ executing (program ∷ args)
  unfolding exec_program
  cmd_exec_redirect_ignored cmdline fds environ p q n program args env a b c runs =
      rw (cmd_exec_redirect_failed cmdline fds environ p q n program args env a b c) (
        ground (
          arith,
          runs (execv (program ∷ args)) q.world refl,
          runs (execvp (program ∷ args)) q.world refl,
        ))

  -- A parent gets the pid of the child, whether or not it could move the child to the process group.
  pub fork_pid_parent :
      (fds : Ptr) (existing_pgid : ℤ) (p : Process W) (pid : ℕ)
      → (w : W) → kernel fork (call_state kernel p) ≡ (ok (suc pid) 0, w)
      → (fork_pid kernel strerror address fds existing_pgid p).0 ≡ pos (suc pid)
  unfolding fork_pid
  fork_pid_parent fds existing_pgid p pid w h = ground arith

-- A parent and its child behind the same fork. The redirections are whole quadruples, and the
-- first one has a valid fd and direction and is to a path. If the child cannot open the path, and
-- all its other calls succeed, it returns the errno, whatever redirections follow. That is also
-- what the parent returns if its child has that number as its pid, whatever its own other calls
-- answer.
pub fork_pid_redirect_failed :
    {W : Type 0} (parent child : Kernel W) (strerror : ℕ → List ℕ) (address : Ptr → ℕ)
    (from_fd direction_ch to bytevector0 : Ptr) (more : Ptrs) (existing_pgid : ℤ) (p : Process W)
    (fd flags e : ℕ) (name : List ℕ)
    → fd_of from_fd ≡ some fd
    → flags_of direction_ch ≡ some flags
    → target_of (target to bytevector0) ≡ path name
    → bit_and (count (cons from_fd (cons direction_ch (cons to (cons bytevector0 more))))) 3 ≡ 0
    → ((w : W) → (child fork w).0 ≡ ok 0 0)
    → ((w : W) → (parent fork w).0 ≡ ok (suc e) 0)
    → ((c : Call) (w : W) → is_open c ≡ false → is_failure (child c w).0 ≡ false)
    → ((c : Call) (w : W) → is_open c ≡ true → (child c w).0 ≡ fail (suc e))
    → let fds = vector (cons from_fd (cons direction_ch (cons to (cons bytevector0 more)))) in
      ((fork_pid child strerror address fds existing_pgid p).0 ≡ pos (suc e))
      × ((fork_pid parent strerror address fds existing_pgid p).0 ≡ pos (suc e))
fork_pid_redirect_failed parent child strerror address from_fd direction_ch to bytevector0 more
      existing_pgid p fd flags e name a b c whole in_child in_parent succeeds unopened =
    let fds = vector (cons from_fd (cons direction_ch (cons to (cons bytevector0 more)))) in
    (
      child_forked child strerror address succeeds fds existing_pgid (suc e) p
          (first_unopened child strerror address from_fd direction_ch to bytevector0 more fd flags e
            name a b c whole unopened)
          in_child,
      fork_pid_parent parent strerror address fds existing_pgid p e
          (parent fork (call_state parent p)).1
          (ap (λ a. (a, (parent fork (call_state parent p)).1)) (in_parent (call_state parent p))),
    )
