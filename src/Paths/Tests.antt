-- ===== src/Paths/Tests.antt =====
-- posix/posix.c, paths and hosts: runs, and the theorems at concrete inputs.
use schemesh.Base.{
  ℕ, ◌≡◌, refl, Bool, true, Option, some, none, List, [], ◌∷◌, ◌++◌, length, replicate, ltb,
  if◌then◌else◌, arith,
}
use schemesh.Base.Int.{ℤ, pos, negsuc, neg}
use schemesh.Base.Text.{codes}
use schemesh.Scheme.{Ptr, fixnum, bytevector, string}
use schemesh.Strings.{sstring_utf8b, bytes_utf8b_to_string_length, bytes_utf8b_to_string_append}
use schemesh.Utf8b.{utf8b_to_codepoint_length, utf8b_to_codepoint}
use schemesh.Posix.{Kernel, ok, fail, stat, enoent}
use schemesh.Posix.Examples.{start}
use schemesh.Tty.{Attempt, done, failed}
use schemesh.Paths.{made, erange, get_cwd, get_hostname, file_rename, field_of}
use schemesh.Paths.Cwd.{Gives, get_cwd_lem, get_cwd_ends}
use schemesh.Paths.Files.{StatsZero}

abbrev zeros : ℤ → Option (List ℕ)
zeros (pos n) = some (replicate n 0)
zeros (negsuc n) = none

abbrev memory : ℕ → Bool
memory n = true

-- A directory with a name of 300 bytes, which is too long for the buffer on the stack.
abbrev deep : List ℕ
deep = replicate 300 b'd'

abbrev getcwd : ℕ → Attempt (List ℕ)
getcwd n = if ltb (length deep) n then done deep else failed erange

getcwd-Gives : Gives memory zeros getcwd deep
getcwd-Gives n = (λ h. ground arith, λ h. ground arith)

get_cwd_lem_example : get_cwd memory zeros 55 getcwd ≡ some (made (sstring_utf8b zeros deep none))
get_cwd_lem_example = get_cwd_lem memory zeros getcwd deep getcwd-Gives (λ n h. refl) (omega arith)

get_cwd_ends_example : (r : Option Ptr) × (get_cwd memory zeros 55 getcwd ≡ some r)
get_cwd_ends_example = get_cwd_ends memory zeros getcwd

-- A host name that fills the buffer of 65 bytes, without a 0.
long_host :
    get_hostname memory zeros (λ n. done (replicate n b'h')) (pos 64)
    ≡ some (string (replicate 65 b'h'))
unfolding get_hostname sstring_utf8b bytes_utf8b_to_string_length utf8b_to_codepoint_length
    bytes_utf8b_to_string_append utf8b_to_codepoint
long_host = refl

no_user : field_of memory zeros (done none) ≡ some (fixnum (neg enoent))
unfolding field_of
no_user = refl

-- No file is there.
abbrev absent : Kernel (Unit {0})
absent (stat keep_symlinks path) w = (fail enoent, w)
absent c w = (ok 0 0, w)

absent-StatsZero : StatsZero absent
absent-StatsZero keep_symlinks path w r mode h = absurd (ground arith)

abbrev some_path : Ptr
some_path = bytevector (codes "f" ++ (0 ∷ []))

unterminated : (file_rename absent some_path (bytevector (codes "g")) start).0 ≡ negsuc 21
unfolding file_rename
unterminated = refl
