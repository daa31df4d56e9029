-- ===== src/Posix/Redirect.antt =====
-- posix/posix.c: messages on standard error, and the redirection of file descriptors.
pub mod Hex
pub mod Results
pub mod Table
pub mod Refines
pub mod Frame
pub mod Files
mod Tests
use schemesh.Base.{
  ℕ, zero, suc, ◌+◌, ◌-◌, ◌/◌, ◌%◌, ◌^◌, bit_and, bit_or, Bool, true, false, ◌&&◌, ◌||◌, not,
  Option, none, some, List, [], ◌∷◌, ◌++◌, ltb, leb, ◌==◌, if◌then◌else◌, length, take,
}
use schemesh.Base.Int.{ℤ, pos, negsuc, neg, negate, eq_ℤ}
use schemesh.Base.Text.{codes}
use schemesh.Scheme.{Ptr, Ptrs, sfalse, fixnum, char, bytevector, vector, nil, cons, is_truish}
use schemesh.Posix.{
  M, Kernel, Process, Call, close, dup2, set_cloexec, open_file, write, call, c_errno, return,
  is_neg, einval, ◌>>=◌, ◌>>◌,
}

-- `to_hex_digit` and the loop of `ptr_to_hex`, which writes the digits from the last to the first; 16
-- rounds are enough for a 64-bit word.
unfoldable pub to_hex_digit : ℕ → ℕ
to_hex_digit number = let n = bit_and number 0xF in if ltb n 10 then b'0' + n else b'A' + (n - 10)

unfoldable pub hex_loop : ℕ → ℕ → List ℕ → List ℕ
unfolding to_hex_digit
hex_loop zero x out = out
hex_loop (suc fuel) x out =
    let next = to_hex_digit x ∷ out in
    let rest = hex_loop fuel (x / 16) next in if x / 16 == 0 then next else rest

unfoldable pub ptr_to_hex : ℕ → List ℕ
unfolding hex_loop
ptr_to_hex x = hex_loop 16 x []

abbrev pub o_creat : ℕ
o_creat = 0o100

abbrev pub o_trunc : ℕ
o_trunc = 0o1000

abbrev pub o_append : ℕ
o_append = 0o2000

abbrev pub o_cloexec : ℕ
o_cloexec = 0o2000000

-- O_RDONLY is 0, O_WRONLY 1 and O_RDWR 2; -1 is `none`.
unfoldable pub direction_to_open_flags : ℕ → Option ℕ
direction_to_open_flags ch =
    if ch == b'<'
    then some 0
    else if ch == b'>'
    then some (bit_or (bit_or 1 o_creat) o_trunc)
    else if ch == 0xbb
    then some (bit_or (bit_or 1 o_creat) o_append)
    else if ch == 0x2276
    then some (bit_or 2 o_creat)
    else none

-- A fixnum that is an int and not negative; one that is -1 too.
abbrev pub fd_of : Ptr → Option ℕ
fd_of (fixnum (pos n)) = if ltb n (2 ^ 31) then some n else none
fd_of _ = none

abbrev pub flags_of : Ptr → Option ℕ
flags_of (char ch) = direction_to_open_flags ch
flags_of _ = none

-- What an fd is redirected to.
pub data Target : Type 0 where
  closed : Target
  other_fd : ℕ → Target
  path : List ℕ → Target
  invalid : Target

-- The last byte is 0.
abbrev pub ends_in_zero : List ℕ → Bool
ends_in_zero [] = false
ends_in_zero (b ∷ []) = b == 0
ends_in_zero (b ∷ c ∷ bs) = ends_in_zero (c ∷ bs)

unfoldable pub target_of : Ptr → Target
target_of (fixnum (pos n)) = if ltb n (2 ^ 31) then other_fd n else invalid
target_of (fixnum (negsuc zero)) = closed
target_of (fixnum (negsuc (suc n))) = invalid
target_of (bytevector bytes) = if ends_in_zero bytes then path bytes else invalid
target_of _ = invalid

-- `c_fds_redirect_i`: the element at i + 3, or the one at i + 2 where that is #f.
abbrev pub target : Ptr → Ptr → Ptr
target to bytevector0 = if is_truish bytevector0 then bytevector0 else to

abbrev pub count : Ptrs → ℕ
count nil = 0
count (cons x xs) = suc (count xs)

-- `strerror` gives the text of an error, and `address` the word that a Scheme value is.
module _ {W : Type 0} (kernel : Kernel W) (strerror : ℕ → List ℕ) (address : Ptr → ℕ) where
  abbrev say : List ℕ → M W ℤ
  say text = call kernel (write (pos 2) text)

  abbrev c_strerror : ℤ → List ℕ
  c_strerror (pos n) = strerror n
  c_strerror (negsuc n) = strerror (suc n)

  unfoldable pub write_c_errno : ℤ → M W ℤ
  write_c_errno err = do say (codes "schemesh: "); say (c_strerror err); say (10 ∷ []); return err

  unfoldable pub write_path_c_errno : List ℕ → ℤ → List ℕ → M W ℤ
  write_path_c_errno name err suffix_msg = do
    say (codes "schemesh: ")
    say name
    say (codes ": ")
    say (c_strerror err)
    say suffix_msg
    return (negate err)

  unfoldable pub write_command_not_found : List ℕ → M W ℤ
  write_command_not_found name = do
    say (codes "schemesh: ")
    say name
    say (codes ": command not found. Type 'help' for help." ++ (10 ∷ []))
    return (neg einval)

  unfoldable pub write_invalid_redirection : List ℕ → Ptr → M W ℤ
  unfolding ptr_to_hex
  write_invalid_redirection label value = do
    say (codes "schemesh: invalid redirection ")
    say label
    say (codes " 0x")
    say (ptr_to_hex (address value) ++ (10 ∷ []))
    return (neg einval)

  unfoldable pub close_and_fail : ℤ → M W ℤ
  close_and_fail new_fd = do err ← c_errno; call kernel (close new_fd); return err

  unfoldable pub flag_close_on_exec : ℤ → M W ℤ
  unfolding close_and_fail
  flag_close_on_exec new_fd = do
    err ← call kernel (set_cloexec new_fd)
    if is_neg err then close_and_fail new_fd else return err

  unfoldable pub dup2_close_on_exec : ℤ → ℤ → Bool → M W ℤ
  unfolding flag_close_on_exec
  dup2_close_on_exec old_fd new_fd close_on_exec = do
    err ← call kernel (dup2 old_fd new_fd)
    if is_neg err then c_errno else if close_on_exec then flag_close_on_exec new_fd else return err

  -- `err = dup2_close_on_exec(…) < 0`: what is stored and returned is the truth value 1.
  unfoldable pub redirect_to_fd : ℕ → ℕ → Bool → M W ℤ
  unfolding dup2_close_on_exec write_c_errno
  redirect_to_fd fd to_fd close_on_exec = do
    err ← dup2_close_on_exec (pos to_fd) (pos fd) close_on_exec
    if is_neg err then write_c_errno (pos 1) else return (pos 0)

  -- From here on `err` is that of `dup2_close_on_exec`, and 0 where the file was opened as `fd`.
  unfoldable pub move_fd : ℤ → ℕ → Bool → M W ℤ
  unfolding dup2_close_on_exec
  move_fd temp_fd fd close_on_exec = if eq_ℤ temp_fd (pos fd) then return (pos 0) else (do
    err ← dup2_close_on_exec temp_fd (pos fd) close_on_exec
    call kernel (close temp_fd)
    return err)

  unfoldable pub redirect_to_path : ℕ → ℕ → List ℕ → Bool → M W ℤ
  unfolding move_fd write_path_c_errno
  redirect_to_path fd open_flags name close_on_exec = do
    let flags = bit_or open_flags (if close_on_exec then o_cloexec else 0)
    let shown = take (length name - 1) name
    temp_fd ← call kernel (open_file name flags)
    if is_neg temp_fd then (c_errno >>= λ e. write_path_c_errno shown e (10 ∷ [])) else (do
      err ← move_fd temp_fd fd close_on_exec
      if is_neg err then write_path_c_errno shown err (10 ∷ []) else return (pos 0))

  unfoldable pub redirect_to : Target → ℕ → ℕ → Ptr → Bool → M W ℤ
  unfolding redirect_to_fd redirect_to_path write_invalid_redirection
  redirect_to closed fd open_flags to close_on_exec = do
    call kernel (close (pos fd))
    return (pos 0)
  redirect_to (other_fd to_fd) fd open_flags to close_on_exec =
      redirect_to_fd fd to_fd close_on_exec
  redirect_to (path name) fd open_flags to close_on_exec =
      redirect_to_path fd open_flags name close_on_exec
  redirect_to invalid fd open_flags to close_on_exec =
      write_invalid_redirection (codes "to_fd_or_bytevector") to

  unfoldable pub fd_redirect : Ptr → Ptr → Ptr → Bool → M W ℤ
  unfolding redirect_to target_of direction_to_open_flags
  fd_redirect from_fd direction_ch to close_on_exec = elim (fd_of from_fd) [
    | none ↦ write_invalid_redirection (codes "from_fd") from_fd
    | some fd ↦ elim (flags_of direction_ch) [
      | none ↦ write_invalid_redirection (codes "direction_ch") direction_ch
      | some open_flags ↦ redirect_to (target_of to) fd open_flags to close_on_exec
    ]
  ]

  -- `for (i = 0; err == 0 && i + 4 <= n; i += 4)`
  unfoldable pub fds_loop : Ptrs → Bool → M W ℤ
  unfolding fd_redirect
  fds_loop (cons from_fd (cons direction_ch (cons to (cons bytevector0 rest)))) close_on_exec = do
    err ← fd_redirect from_fd direction_ch (target to bytevector0) close_on_exec
    if eq_ℤ err (pos 0) then fds_loop rest close_on_exec else return err
  fds_loop _ close_on_exec = return (pos 0)

  unfoldable pub fds_redirect : Ptr → Bool → M W ℤ
  unfolding fds_loop write_invalid_redirection
  fds_redirect (vector xs) close_on_exec =
      if bit_and (count xs) 3 == 0
      then fds_loop xs close_on_exec
      else write_invalid_redirection (codes "vector_fds_redirect") (vector xs)
  fds_redirect v close_on_exec = write_invalid_redirection (codes "vector_fds_redirect") v
