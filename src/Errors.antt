-- ===== src/Errors.antt =====
-- posix/posix.c: the error numbers and texts that Scheme code asks for, with the numbers of Linux.
use schemesh.Base.{ℕ, zero, suc, arith, ◌≡◌, refl, Option, none, some, List}
use schemesh.Base.Int.{ℤ, pos, negsuc, neg}
use schemesh.Scheme.{Ptr, string}
use schemesh.Strings.{sstring_utf8b}
use schemesh.Posix.{eagain, eintr, einval, enoent}

abbrev pub c_errno_eagain : ℤ
c_errno_eagain = neg eagain

abbrev pub c_errno_eio : ℤ
c_errno_eio = neg 5

abbrev pub c_errno_eintr : ℤ
c_errno_eintr = neg eintr

abbrev pub c_errno_einval : ℤ
c_errno_einval = neg einval

abbrev pub c_errno_enoent : ℤ
c_errno_enoent = neg enoent

abbrev pub c_errno_enotdir : ℤ
c_errno_enotdir = neg 20

abbrev pub c_errno_esrch : ℤ
c_errno_esrch = neg 3

-- `strerror` of the number without its sign
unfoldable pub strerror_of : (ℕ → List ℕ) → ℤ → List ℕ
strerror_of strerror (pos n) = strerror n
strerror_of strerror (negsuc n) = strerror (suc n)

-- `c_strerror_string`: none where making the string raised a condition.
unfoldable pub strerror_string : (ℤ → Option (List ℕ)) → (ℕ → List ℕ) → ℤ → Option Ptr
unfolding strerror_of
strerror_string smake_string strerror err =
    elim (sstring_utf8b smake_string (strerror_of strerror err) none) [
      | none ↦ none
      | some chars ↦ some (string chars)
    ]

-- An error number and its negation have the same text.
strerror_string-neg :
    (smake_string : ℤ → Option (List ℕ)) (strerror : ℕ → List ℕ) (n : ℕ)
    → strerror_string smake_string strerror (neg n) ≡ strerror_string smake_string strerror (pos n)
unfolding strerror_string
strerror_string-neg smake_string strerror zero = refl
strerror_string-neg smake_string strerror (suc n) =
    let e : neg (suc n) ≡ negsuc n = ground arith in rw e refl
