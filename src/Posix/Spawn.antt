-- ===== src/Posix/Spawn.antt =====
-- posix/posix.c: process groups, fork and exec.
pub mod Outcomes
pub mod Files
mod Tests
use schemesh.Base.{
  ℕ, zero, suc, bit_and, Bool, true, false, ◌&&◌, ◌||◌, not, Option, none, some, List, [], ◌∷◌,
  ◌++◌, ltb, leb, ◌==◌, if◌then◌else◌, length, take, ◌-◌,
}
use schemesh.Base.Int.{ℤ, pos, negsuc, neg, eq_ℤ, leb_ℤ}
use schemesh.Base.Text.{codes}
use schemesh.Scheme.{Ptr, Ptrs, sfalse, bytevector, vector, nil, cons, is_truish}
use schemesh.Posix.{
  M, Kernel, Process, Call, setpgid, fflush, fork, execv, execvp, chdir, call, c_errno, c_errno_set,
  return, is_neg, einval, enomem, enoent, ◌>>=◌, ◌>>◌,
}
use schemesh.Posix.Redirect.{
  ends_in_zero, fds_redirect, write_command_not_found, write_path_c_errno,
}
use schemesh.Strings.{until_zero}
use schemesh.Posix.Signals.{signals_setdefault}

-- The bytes of a bytevector0, with its final 0.
abbrev pub bytes0 : Ptr → Option (List ℕ)
bytes0 (bytevector bytes) = if ends_in_zero bytes then some bytes else none
bytes0 _ = none

unfoldable pub argz_loop : Ptrs → Option (List (List ℕ))
argz_loop nil = some []
argz_loop (cons x xs) = elim (bytes0 x) [
  | none ↦ none
  | some bytes ↦ elim (argz_loop xs) [ none ↦ none | some rest ↦ some (bytes ∷ rest) ]
]

-- NULL is `none`. There is enough memory.
unfoldable pub vector_to_c_argz : Ptr → Option (List (List ℕ))
unfolding argz_loop
vector_to_c_argz (vector xs) = argz_loop xs
vector_to_c_argz _ = none

abbrev pub is_vector : Ptr → Bool
is_vector (vector xs) = true
is_vector _ = false

-- The function returned, the process ended, or it runs another program.
pub data Outcome : Type 0 where
  returned : ℤ → Outcome
  exited : ℕ → Outcome
  executing : List (List ℕ) → Outcome

-- `strchr(argv0, '/')`, which ends at the first 0 byte.
abbrev pub contains_slash : List ℕ → Bool
contains_slash [] = false
contains_slash (b ∷ bs) = not (b == 0) && (b == b'/' || contains_slash bs)

abbrev pub dir_ok : Ptr → Bool
dir_ok dir = not (is_truish dir) || (elim (bytes0 dir) [ none ↦ false | some b ↦ true ])

-- `environ = envp`
abbrev pub with_environ : {W : Type 0} → Option (List (List ℕ)) → Process W → Process W
with_environ none p = p
with_environ (some env) p = record p { environ = env }

module _ {W : Type 0} (kernel : Kernel W) (strerror : ℕ → List ℕ) (address : Ptr → ℕ) where
  unfoldable pub pgid_set : ℤ → ℤ → M W ℤ
  pgid_set pid existing_pgid = if is_neg existing_pgid then return (pos 0) else (do
    err ← call kernel (setpgid pid existing_pgid)
    if is_neg err then c_errno else return err)

  unfoldable pub c_chdir : Ptr → M W ℤ
  c_chdir p = elim (bytes0 p) [
    | none ↦ c_errno_set einval
    | some dir ↦ (do
      err ← call kernel (chdir dir)
      if eq_ℤ err (pos 0) then return (pos 0) else c_errno)
  ]

  unfoldable pub fork_child : Ptr → ℤ → M W ℤ
  unfolding pgid_set
  fork_child vector_fds_redirect existing_pgid = do
    err ← pgid_set (pos 0) existing_pgid
    if is_neg err then return err else (do
      err' ← signals_setdefault kernel
      if is_neg err'
          then return err'
          else fds_redirect kernel strerror address vector_fds_redirect false)

  unfoldable pub fork_pid : Ptr → ℤ → M W ℤ
  unfolding fork_child pgid_set
  fork_pid vector_fds_redirect existing_pgid = do
    call kernel fflush
    pid ← call kernel fork
    if is_neg pid
        then c_errno
        else if eq_ℤ pid (pos 0)
        then fork_child vector_fds_redirect existing_pgid
        else (pgid_set pid existing_pgid >> return pid)

  -- Up to `execv`: some err is `goto child_out`. Where `err = … < 0` has no parentheses inside, what
  -- is stored is 1.
  unfoldable pub prepare_group : Bool → ℤ → M W (Option ℤ)
  unfolding pgid_set
  prepare_group is_spawn existing_pgid = if not is_spawn then return none else (do
    err ← pgid_set (pos 0) existing_pgid
    if is_neg err then return (some (pos 1)) else (do
      err' ← signals_setdefault kernel
      if is_neg err' then return (some err') else return none))

  unfoldable pub prepare_dir : Ptr → M W (Option ℤ)
  unfolding c_chdir
  prepare_dir dir =
      if not (is_truish dir)
      then return none
      else (do err ← c_chdir dir; if is_neg err then return (some (pos 1)) else return none)

  unfoldable pub prepare_fds : Ptr → M W (Option ℤ)
  prepare_fds vector_fds_redirect = do
    err ← fds_redirect kernel strerror address vector_fds_redirect false
    if is_neg err then return (some err) else return none

  unfoldable pub and_then : M W (Option ℤ) → M W (Option ℤ) → M W (Option ℤ)
  and_then m next = do stop ← m; elim stop [ some err ↦ return (some err) | none ↦ next ]

  -- `child_out:`
  unfoldable pub child_out : Bool → List (List ℕ) → ℤ → M W Outcome
  child_out is_spawn saved_environ err p =
      if is_spawn
      then (exited (if is_neg err then 1 else 127), p)
      else (returned err, record p { environ = saved_environ })

  -- What follows `execv` and `execvp` if they return.
  unfoldable pub exec_failed : Bool → List (List ℕ) → List ℕ → M W Outcome
  unfolding child_out
  exec_failed is_spawn saved_environ program = do
    err ← c_errno
    if eq_ℤ err (neg enoent)
        then write_command_not_found kernel strerror address (until_zero program)
        else write_path_c_errno kernel strerror address (until_zero program) err
            (codes ". Type 'help' for help." ++ (10 ∷ []))
    child_out is_spawn saved_environ err

  -- `execv` or `execvp`
  unfoldable pub exec_program :
      Bool → List (List ℕ) → List ℕ → List (List ℕ) → Option (List (List ℕ)) → M W Outcome
  unfolding exec_failed
  exec_program is_spawn saved_environ program argv envp p =
      (call kernel (if contains_slash program then execv argv else execvp argv) >>= λ result.
      if is_neg result then exec_failed is_spawn saved_environ program else return (executing argv))
        (with_environ envp p)

  unfoldable pub spawn_child :
      Bool → ℤ → Ptr → Ptr → List ℕ → List (List ℕ) → Option (List (List ℕ)) → M W Outcome
  unfolding prepare_group prepare_dir prepare_fds and_then exec_program
  spawn_child is_spawn existing_pgid dir vector_fds_redirect program argv envp p =
      (and_then (prepare_group is_spawn existing_pgid)
            (and_then (prepare_dir dir) (prepare_fds vector_fds_redirect))
          >>= λ stop. elim stop as (λ s. M W Outcome) [
            | some err ↦ child_out is_spawn p.environ err
            | none ↦ exec_program is_spawn p.environ program argv envp
          ])
        p

  unfoldable pub spawn_argv :
      List (List ℕ) → Option (List (List ℕ)) → Ptr → Ptr → ℤ → Bool → M W Outcome
  unfolding spawn_child
  spawn_argv [] envp dir vector_fds_redirect existing_pgid is_spawn = return (returned (neg einval))
  spawn_argv (program ∷ args) envp dir vector_fds_redirect existing_pgid is_spawn =
      if not (dir_ok dir) then return (returned (neg einval)) else (do
        pid ← (if is_spawn then call kernel fork else return (pos 0))
        if is_neg pid
            then (c_errno >>= λ err. return (returned err))
            else if eq_ℤ pid (pos 0)
            then spawn_child is_spawn existing_pgid dir vector_fds_redirect program (program ∷ args)
                envp
            else (pgid_set pid existing_pgid >> return (returned pid)))

  unfoldable pub cmd_spawn_or_exec : Ptr → Ptr → Ptr → Ptr → ℤ → Bool → M W Outcome
  unfolding vector_to_c_argz spawn_argv
  cmd_spawn_or_exec cmdline dir vector_fds_redirect environ existing_pgid is_spawn =
      let envp = vector_to_c_argz environ in
      let bad_environ = (elim envp [ none ↦ true | some env ↦ false ]) && is_vector environ in
      elim (vector_to_c_argz cmdline) [
        | none ↦ return (returned (neg enomem))
        | some argv ↦
            if bad_environ
            then return (returned (neg enomem))
            else spawn_argv argv envp dir vector_fds_redirect existing_pgid is_spawn
      ]

  unfoldable pub cmd_exec : Ptr → Ptr → Ptr → Ptr → M W Outcome
  unfolding cmd_spawn_or_exec
  cmd_exec cmdline dir vector_fds_redirect environ =
      cmd_spawn_or_exec cmdline dir vector_fds_redirect environ (negsuc 1) false

  unfoldable pub cmd_spawn : Ptr → Ptr → Ptr → Ptr → ℤ → M W Outcome
  unfolding cmd_spawn_or_exec
  cmd_spawn cmdline dir vector_fds_redirect environ existing_pgid =
      cmd_spawn_or_exec cmdline dir vector_fds_redirect environ existing_pgid true
