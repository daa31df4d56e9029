-- ===== src/Paths.antt =====
-- posix/posix.c: paths, hosts, users and other processes. `getcwd`, `gethostname` and the user database
-- are parameters, as are `malloc`, `sysconf` and Chez Scheme's `Smake_string`.
pub mod Cwd
pub mod Names
pub mod Files
mod Tests
use schemesh.Base.{
  ℕ, zero, suc, ◌+◌, ◌*◌, ◌%◌, ◌^◌, bit_and, Bool, true, false, ◌&&◌, ◌||◌, not, Option, none, some,
  List, [], ◌∷◌, ltb, leb, ◌==◌, if◌then◌else◌, length, map,
}
use schemesh.Base.Int.{ℤ, pos, negsuc, neg, eq_ℤ}
use schemesh.Scheme.{Ptr, sfalse, fixnum, string, bytevector}
use schemesh.Strings.{sstring_utf8b}
use schemesh.Bytevector.{memchr}
use schemesh.Directory.{stat_type, format_of}
use schemesh.Posix.{
  M, Kernel, Process, Call, mkdir, remove, rename, stat, kill, pause, geteuid, getpid, getpgid,
  call, call_word, c_errno, c_errno_set, return, is_neg, enoent, enomem, einval, ◌>>=◌, ◌>>◌,
}
use schemesh.Posix.Redirect.{ends_in_zero}
use schemesh.Posix.Spawn.{bytes0, Outcome, exited}
use schemesh.Tty.{Attempt, done, failed}

abbrev pub erange : ℕ
erange = 34

-- `errno = 0`
abbrev clear_errno : {W : Type 0} → M W ℤ
clear_errno p = (pos 0, record p { errno = 0 })

module _ {W : Type 0} (kernel : Kernel W) where
  -- 0, or -errno
  abbrev zero_or_errno : Call → M W ℤ
  zero_or_errno c = do err ← call kernel c; if eq_ℤ err (pos 0) then return (pos 0) else c_errno

  unfoldable pub c_mkdir : Ptr → ℤ → M W ℤ
  c_mkdir bytevec0 mode = elim (bytes0 bytevec0) as (λ x. M W ℤ) [
    | none ↦ c_errno_set einval
    | some dir ↦ zero_or_errno (mkdir dir mode)
  ]

  unfoldable pub file_delete : Ptr → M W ℤ
  file_delete bytevector0_name = elim (bytes0 bytevector0_name) as (λ x. M W ℤ) [
    | none ↦ c_errno_set einval
    | some name ↦ zero_or_errno (remove name)
  ]

  unfoldable pub file_rename : Ptr → Ptr → M W ℤ
  file_rename bytevector0_old_name bytevector0_new_name =
      elim (bytes0 bytevector0_old_name) as (λ x. M W ℤ) [
        | none ↦ c_errno_set einval
        | some old_name ↦ elim (bytes0 bytevector0_new_name) as (λ x. M W ℤ) [
          | none ↦ c_errno_set einval
          | some new_name ↦ (do
            err ← call kernel (rename old_name new_name)
            if is_neg err then c_errno else return (pos 0))
        ]
      ]

  -- What follows a `stat` that failed.
  unfoldable pub no_file : M W Ptr
  no_file = do
    err ← c_errno
    if eq_ℤ err (neg enoent) then (clear_errno >> return sfalse) else return (fixnum err)

  unfoldable pub file_type : Ptr → Bool → M W Ptr
  unfolding stat_type no_file
  file_type bytevector0_path keep_symlinks = elim (bytes0 bytevector0_path) as (λ x. M W Ptr) [
    | none ↦ (c_errno_set einval >>= λ err. return (fixnum err))
    | some path ↦ (do
      (err, mode) ← call_word kernel (stat keep_symlinks path)
      if eq_ℤ err (pos 0) then return (fixnum (pos (stat_type (format_of mode)))) else no_file)
  ]

  unfoldable pub pid_kill : ℤ → ℕ → Bool → M W ℤ
  pid_kill pid sig pause_if_successful = do
    err ← call kernel (kill pid sig)
    if is_neg err
        then c_errno
        else if pause_if_successful
        then (call kernel pause >> return (pos 0))
        else return (pos 0)

  -- The value of a call that is not below 0, or -errno: `c_euid_get`, `c_pid_get` and `c_pgid_get`
  abbrev value_or_errno : Call → M W ℤ
  value_or_errno c = do ret ← call kernel c; if not (is_neg ret) then return ret else c_errno

  unfoldable pub euid_get : M W ℤ
  euid_get = value_or_errno geteuid

  unfoldable pub pid_get : M W ℤ
  pid_get = value_or_errno getpid

  unfoldable pub pgid_get : ℤ → M W ℤ
  pgid_get pid = value_or_errno (getpgid pid)

-- `exit` keeps the low 8 bits of the status.
unfoldable pub c_exit : ℕ → Outcome
c_exit status = exited (bit_and status 0xFF)

-- A text that became a Scheme string; none where making the string raised a condition.
abbrev made : Option (List ℕ) → Option Ptr
made none = none
made (some chars) = some (string chars)

-- HOST_NAME_MAX is 64 on Linux.
abbrev pub stack_host_name_max : ℕ
stack_host_name_max = 65

-- `sysconf(_SC_GETPW_R_SIZE_MAX)`, and the default where it gives no size
abbrev pub bufsize_of : ℤ → ℕ
bufsize_of (pos n) = n
bufsize_of (negsuc n) = 16384

module _ (malloc : ℕ → Bool) (smake_string : ℤ → Option (List ℕ)) where
  -- The first buffer on the heap has 1024 bytes, and each other is twice as large, in 64 bits. The
  -- outer `none` is fuel that does not suffice.
  unfoldable pub cwd_loop : ℕ → (ℕ → Attempt (List ℕ)) → ℕ → Option (Option Ptr)
  cwd_loop zero getcwd maxlen = none
  cwd_loop (suc rounds) getcwd maxlen = elim (not (maxlen == 0) && malloc maxlen) [
    | false ↦ some (made (smake_string (pos 0)))
    | true ↦ elim (getcwd maxlen) [
      | done dir ↦ some (made (sstring_utf8b smake_string dir none))
      | failed e ↦ cwd_loop rounds getcwd (maxlen * 2 % 2 ^ 64)
    ]
  ]

  unfoldable pub get_cwd : ℕ → (ℕ → Attempt (List ℕ)) → Option (Option Ptr)
  unfolding cwd_loop
  get_cwd rounds getcwd = elim (getcwd 256) [
    | done dir ↦ some (made (sstring_utf8b smake_string dir none))
    | failed e ↦
        if not (e == erange)
        then some (made (smake_string (pos 0)))
        else cwd_loop rounds getcwd 1024
  ]

  -- `gethostname` fills a buffer of `len` bytes.
  unfoldable pub get_hostname_buf : (ℕ → Attempt (List ℕ)) → ℕ → Option Ptr
  unfolding memchr
  get_hostname_buf gethostname len = elim (gethostname len) [
    | failed e ↦ some (fixnum (neg e))
    | done buf ↦
        let n : ℕ = elim (memchr buf 0 len) [ none ↦ len | some end ↦ end ] in
        made (sstring_utf8b smake_string buf (some n))
  ]

  unfoldable pub get_hostname : (ℕ → Attempt (List ℕ)) → ℤ → Option Ptr
  unfolding get_hostname_buf
  get_hostname gethostname (pos len) =
      if leb stack_host_name_max len && malloc (len + 1)
      then get_hostname_buf gethostname (len + 1)
      else get_hostname_buf gethostname stack_host_name_max
  get_hostname gethostname (negsuc n) = get_hostname_buf gethostname stack_host_name_max

  -- An entry of the user database has the text that is asked for, or lacks it; no entry is `none`.
  unfoldable pub field_of : Attempt (Option (Option (List ℕ))) → Option Ptr
  field_of (failed e) = some (fixnum (neg e))
  field_of (done (some (some text))) = made (sstring_utf8b smake_string text none)
  field_of (done (some none)) = some (fixnum (neg enoent))
  field_of (done none) = some (fixnum (neg enoent))

  -- `getpwuid_r` with a buffer of so many bytes
  unfoldable pub get_username : (ℤ → ℕ → Attempt (Option (Option (List ℕ)))) → ℤ → ℤ → Option Ptr
  unfolding field_of
  get_username getpwuid sysconf uid =
      let bufsize = bufsize_of sysconf in
      if not (malloc bufsize) then some (fixnum (neg enomem)) else field_of (getpwuid uid bufsize)

  unfoldable pub get_userhome :
      (List ℕ → ℕ → Attempt (Option (Option (List ℕ)))) → ℤ → Ptr → Option Ptr
  unfolding field_of
  get_userhome getpwnam sysconf username0 = elim (bytes0 username0) [
    | none ↦ some (fixnum (neg einval))
    | some username ↦
        let bufsize = bufsize_of sysconf in
        if not (malloc bufsize)
        then some (fixnum (neg enomem))
        else field_of (getpwnam username bufsize)
  ]
