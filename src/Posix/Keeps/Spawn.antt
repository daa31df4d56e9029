-- ===== src/Posix/Keeps/Spawn.antt =====
-- Signals, forks, commands and waiting keep the terminal.
use schemesh.Base.{
  ◌++◌, not, ℕ, Bool, List, [], ◌∷◌, if◌then◌else◌, none, some, Option, refl, true, false,
}
use schemesh.Base.Int.{ℤ, pos, negsuc, neg, eq_ℤ}
use schemesh.Base.Text.{codes}
use schemesh.Scheme.{is_truish, Ptr}
use schemesh.Posix.{
  M, Kernel, Call, Process, call, execv, execvp, enoent, enomem, fork, Handler, sig_dfl, sigaction,
  is_neg, einval, return, ◌>>=◌,
}
use schemesh.Posix.Keeps.{
  IsKeeping, Keeps, Keeps-trans, keep_rules, if-IsKeeping, bind-IsKeeping, option-IsKeeping,
  return-IsKeeping, c_errno-IsKeeping, c_errno_set-IsKeeping, call-IsKeeping,
}
use schemesh.Posix.Keeps.Commands.{
  fds_redirect-IsKeeping, write_path_c_errno-IsKeeping, write_command_not_found-IsKeeping,
}
use schemesh.Strings.{until_zero}
use schemesh.Posix.Signals.{handle_loop, signals_init, signals_setdefault, signals_tohandle_rest}
use schemesh.Posix.Spawn.{
  with_environ, exec_failed, dir_ok, vector_to_c_argz, Outcome, executing, returned, contains_slash,
  prepare_group, prepare_dir, prepare_fds, and_then, child_out, exec_program, spawn_child,
  spawn_argv, cmd_spawn_or_exec, cmd_spawn, cmd_exec, bytes0, pgid_set, c_chdir, fork_child,
  fork_pid,
}

module _ {W : Type 0} (kernel : Kernel W) where
  handle_loop-IsKeeping :
      (handler : Handler) (sigs : List ℕ) → IsKeeping (handle_loop kernel handler sigs)
  unfolding handle_loop
  handle_loop-IsKeeping handler [] = return-IsKeeping (pos 0)
  handle_loop-IsKeeping handler (sig ∷ sigs) =
      bind-IsKeeping (call-IsKeeping kernel (sigaction sig handler))
        (λ err. if-IsKeeping (is_neg err) c_errno-IsKeeping (handle_loop-IsKeeping handler sigs))

  pub signals_init-IsKeeping : IsKeeping (signals_init kernel)
  unfolding signals_init
  signals_init-IsKeeping = search (keep_rules, handle_loop-IsKeeping)

  pub signals_setdefault-IsKeeping : IsKeeping (signals_setdefault kernel)
  unfolding signals_setdefault
  signals_setdefault-IsKeeping = handle_loop-IsKeeping sig_dfl signals_tohandle_rest

module _ {W : Type 0} (kernel : Kernel W) (strerror : ℕ → List ℕ) (address : Ptr → ℕ) where
  pgid_set-IsKeeping : (pid pgid : ℤ) → IsKeeping (pgid_set kernel strerror address pid pgid)
  unfolding pgid_set
  pgid_set-IsKeeping pid pgid = search keep_rules

  pub c_chdir-IsKeeping : (p : Ptr) → IsKeeping (c_chdir kernel strerror address p)
  unfolding c_chdir
  c_chdir-IsKeeping p =
      option-IsKeeping (bytes0 p) (c_errno_set-IsKeeping einval) (λ dir. search keep_rules)

  fork_child-IsKeeping :
      (v : Ptr) (pgid : ℤ) → IsKeeping (fork_child kernel strerror address v pgid)
  unfolding fork_child
  fork_child-IsKeeping v pgid = bind-IsKeeping (pgid_set-IsKeeping (pos 0) pgid) (λ err.
      if-IsKeeping (is_neg err) (return-IsKeeping err) (
        bind-IsKeeping (signals_setdefault-IsKeeping kernel) (λ err'.
          if-IsKeeping (is_neg err') (return-IsKeeping err')
            (fds_redirect-IsKeeping kernel strerror address v false))))

  pub fork_pid-IsKeeping :
      (v : Ptr) (pgid : ℤ) → IsKeeping (fork_pid kernel strerror address v pgid)
  unfolding fork_pid
  fork_pid-IsKeeping v pgid = search (keep_rules, pgid_set-IsKeeping, fork_child-IsKeeping) depth 12

  prepare_group-IsKeeping :
      (is_spawn : Bool) (pgid : ℤ) → IsKeeping (prepare_group kernel strerror address is_spawn pgid)
  unfolding prepare_group
  prepare_group-IsKeeping is_spawn pgid = if-IsKeeping (not is_spawn) (return-IsKeeping none) (
      bind-IsKeeping (pgid_set-IsKeeping (pos 0) pgid) (λ err.
        if-IsKeeping (is_neg err) (return-IsKeeping (some (pos 1))) (
          bind-IsKeeping (signals_setdefault-IsKeeping kernel) (λ err'.
            if-IsKeeping (is_neg err') (return-IsKeeping (some err')) (return-IsKeeping none)))))

  prepare_dir-IsKeeping : (dir : Ptr) → IsKeeping (prepare_dir kernel strerror address dir)
  unfolding prepare_dir
  prepare_dir-IsKeeping dir = if-IsKeeping (not (is_truish dir)) (return-IsKeeping none) (
      bind-IsKeeping (c_chdir-IsKeeping dir) (λ err.
        if-IsKeeping (is_neg err) (return-IsKeeping (some (pos 1))) (return-IsKeeping none)))

  prepare_fds-IsKeeping : (v : Ptr) → IsKeeping (prepare_fds kernel strerror address v)
  unfolding prepare_fds
  prepare_fds-IsKeeping v =
      bind-IsKeeping (fds_redirect-IsKeeping kernel strerror address v false)
        (λ err. if-IsKeeping (is_neg err) (return-IsKeeping (some err)) (return-IsKeeping none))

  and_then-IsKeeping :
      {m n : M W (Option ℤ)}
      → IsKeeping m
      → IsKeeping n
      → IsKeeping (and_then kernel strerror address m n)
  unfolding and_then
  and_then-IsKeeping h k =
      bind-IsKeeping h (λ stop. option-IsKeeping stop k (λ err. return-IsKeeping (some err)))

  child_out-IsKeeping :
      (is_spawn : Bool) (saved : List (List ℕ)) (err : ℤ)
      → IsKeeping (child_out kernel strerror address is_spawn saved err)
  unfolding child_out
  child_out-IsKeeping true saved err = record { keeps = λ p. (refl, λ n. refl) }
  child_out-IsKeeping false saved err = record { keeps = λ p. (refl, λ n. refl) }

  exec_failed-IsKeeping :
      (is_spawn : Bool) (saved : List (List ℕ)) (program : List ℕ)
      → IsKeeping (exec_failed kernel strerror address is_spawn saved program)
  unfolding exec_failed
  exec_failed-IsKeeping is_spawn saved program = bind-IsKeeping c_errno-IsKeeping (λ err.
      bind-IsKeeping
        (if-IsKeeping (eq_ℤ err (neg enoent))
          (write_command_not_found-IsKeeping kernel strerror address (until_zero program))
          (write_path_c_errno-IsKeeping kernel strerror address (until_zero program) err
            (codes ". Type 'help' for help." ++ (10 ∷ []))))
        (λ r. child_out-IsKeeping is_spawn saved err))

  with_environ-Keeps :
      (envp : Option (List (List ℕ))) (p : Process W) → Keeps p (with_environ envp p)
  with_environ-Keeps none p = (refl, λ n. refl)
  with_environ-Keeps (some env) p = (refl, λ n. refl)

  abbrev execute : List ℕ → List (List ℕ) → Call
  execute program argv = if contains_slash program then execv argv else execvp argv

  exec_program-IsKeeping :
      (is_spawn : Bool) (saved : List (List ℕ)) (program : List ℕ) (argv : List (List ℕ))
      (envp : Option (List (List ℕ)))
      → IsKeeping (exec_program kernel strerror address is_spawn saved program argv envp)
  unfolding exec_program
  exec_program-IsKeeping is_spawn saved program argv envp = record {
    keeps = λ p.
        let q = with_environ envp p in
        Keeps-trans p q (exec_program kernel strerror address is_spawn saved program argv envp p).1
          (with_environ-Keeps envp p) (run.keeps q);
  }
    where
      run : IsKeeping (
          call kernel (execute program argv) >>= λ result.
          if is_neg result
          then exec_failed kernel strerror address is_spawn saved program
          else return (executing argv))
      run = bind-IsKeeping (call-IsKeeping kernel (execute program argv)) (λ result.
          if-IsKeeping (is_neg result) (exec_failed-IsKeeping is_spawn saved program)
            (return-IsKeeping (executing argv)))

  spawn_child-IsKeeping :
      (is_spawn : Bool) (pgid : ℤ) (dir v : Ptr) (program : List ℕ) (argv : List (List ℕ))
      (envp : Option (List (List ℕ)))
      → IsKeeping (spawn_child kernel strerror address is_spawn pgid dir v program argv envp)
  unfolding spawn_child
  spawn_child-IsKeeping is_spawn pgid dir v program argv envp = record {
    keeps = λ p. (run p).keeps p;
  }
    where
      run :
          (p : Process W)
          → IsKeeping (
              and_then kernel strerror address
                (prepare_group kernel strerror address is_spawn pgid)
                (and_then kernel strerror address
                  (prepare_dir kernel strerror address dir)
                  (prepare_fds kernel strerror address v))
              >>= λ stop. elim stop as (λ s. M W Outcome) [
                | none ↦ exec_program kernel strerror address is_spawn p.environ program argv envp
                | some err ↦ child_out kernel strerror address is_spawn p.environ err
              ])
      run p =
          bind-IsKeeping
            (and_then-IsKeeping (prepare_group-IsKeeping is_spawn pgid)
              (and_then-IsKeeping (prepare_dir-IsKeeping dir) (prepare_fds-IsKeeping v)))
            (λ stop.
              option-IsKeeping stop (exec_program-IsKeeping is_spawn p.environ program argv envp)
                (λ err. child_out-IsKeeping is_spawn p.environ err))

  spawn_argv-IsKeeping :
      (argv : List (List ℕ)) (envp : Option (List (List ℕ))) (dir v : Ptr) (pgid : ℤ)
      (is_spawn : Bool)
      → IsKeeping (spawn_argv kernel strerror address argv envp dir v pgid is_spawn)
  unfolding spawn_argv
  spawn_argv-IsKeeping [] envp dir v pgid is_spawn = return-IsKeeping (returned (neg einval))
  spawn_argv-IsKeeping (program ∷ args) envp dir v pgid is_spawn =
      if-IsKeeping (not (dir_ok dir)) (return-IsKeeping (returned (neg einval))) (
        bind-IsKeeping
          (if-IsKeeping is_spawn (call-IsKeeping kernel fork) (return-IsKeeping (pos 0)))
          (λ pid.
            if-IsKeeping (is_neg pid)
              (bind-IsKeeping c_errno-IsKeeping (λ err. return-IsKeeping (returned err)))
              (if-IsKeeping (eq_ℤ pid (pos 0))
                (spawn_child-IsKeeping is_spawn pgid dir v program (program ∷ args) envp)
                (bind-IsKeeping (pgid_set-IsKeeping pid pgid)
                  (λ r. return-IsKeeping (returned pid))))))

  cmd_spawn_or_exec-IsKeeping :
      (cmdline dir v environ : Ptr) (pgid : ℤ) (is_spawn : Bool)
      → IsKeeping (cmd_spawn_or_exec kernel strerror address cmdline dir v environ pgid is_spawn)
  unfolding cmd_spawn_or_exec
  cmd_spawn_or_exec-IsKeeping cmdline dir v environ pgid is_spawn =
      option-IsKeeping (vector_to_c_argz cmdline) (return-IsKeeping (returned (neg enomem)))
        (λ argv.
          if-IsKeeping _ (return-IsKeeping (returned (neg enomem)))
            (spawn_argv-IsKeeping argv (vector_to_c_argz environ) dir v pgid is_spawn))

  pub cmd_exec-IsKeeping :
      (cmdline dir v environ : Ptr)
      → IsKeeping (cmd_exec kernel strerror address cmdline dir v environ)
  unfolding cmd_exec
  cmd_exec-IsKeeping cmdline dir v environ =
      cmd_spawn_or_exec-IsKeeping cmdline dir v environ (negsuc 1) false

  pub cmd_spawn-IsKeeping :
      (cmdline dir v environ : Ptr) (pgid : ℤ)
      → IsKeeping (cmd_spawn kernel strerror address cmdline dir v environ pgid)
  unfolding cmd_spawn
  cmd_spawn-IsKeeping cmdline dir v environ pgid =
      cmd_spawn_or_exec-IsKeeping cmdline dir v environ pgid true
