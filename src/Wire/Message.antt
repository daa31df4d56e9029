-- ===== src/Wire/Message.antt =====
-- wire/wire.ss and wire/get.ss: a message is the length of a datum's bytes, and the bytes.
use schemesh.Base.{
  ℕ, ◌+◌, ◌-◌, Bool, true, false, Option, none, some, List, [], ◌++◌, leb, ◌==◌, if◌then◌else◌,
  length,
}
use schemesh.Wire.{
  Datum, void, atom, Read, got, failed, raised, ◌>>=◌, max_vlen, put_vlen, vlen_size, vlen,
  too_long, no_vlen, get_vlen,
}
use schemesh.Wire.Data.{put_any, len_any, get_any}

-- `(eq? (void) obj)`
abbrev pub is_void : Datum → Bool
is_void (atom void) = true
is_void d = false

unfoldable pub wire_length : Datum → Option ℕ
wire_length d =
    if is_void d
    then vlen_size 0
    else (len_any d >>= λ pos.
        if leb pos max_vlen then (vlen_size pos >>= λ n. some (pos + n)) else none)

-- `vlen-`: the length of the payload, of a message that has one byte at least.
unfoldable pub vlen_minus : ℕ → Option ℕ
vlen_minus message_len =
    if leb (message_len - 4) max_vlen
    then (if leb message_len 0x80 then some (message_len - 1) else some (message_len - 4))
    else none

-- The bytes that `wire-put` appends. The last test is its assertion.
unfoldable pub wire_put : Datum → ℕ → Option (List ℕ)
wire_put d message_len = do
  payload_len ← vlen_minus message_len
  header ← (if leb payload_len max_vlen then put_vlen payload_len else none)
  body ← (if is_void d then some [] else put_any d)
  if length (header ++ body) == message_len then some (header ++ body) else none

unfoldable pub datum_to_wire : Datum → Option (List ℕ)
datum_to_wire d = wire_length d >>= wire_put d

-- What `wire-get` returns: a datum and the bytes behind it; `#f` and a number of bytes to add; `#t` and
-- a number of bytes to discard; or `#f #f`.
pub data Message : Type 0 where
  datum : Datum → List ℕ → Message
  more : ℕ → Message
  discard : ℕ → Message
  invalid raises : Message

-- The datum ends where the length says.
unfoldable pub checked : ℕ → ℕ → ℕ → Read Datum → Message
checked start len available (got d rest) =
    if length rest + len == available then datum d rest else discard (start + len)
checked start len available failed = discard (start + len)
checked start len available raised = raises

-- `wire-get`, on the bytes from `start` on.
unfoldable pub wire_get : ℕ → List ℕ → Message
unfolding checked
wire_get start bytes = elim (get_vlen bytes) [
  | vlen len rest ↦
      if leb len (length rest)
      then (if len == 0
          then datum (atom void) rest
          else checked (start + (length bytes - length rest)) len (length rest)
              (get_any (length rest) rest))
      else more (len - length rest)
  | too_long len ↦ elim (vlen_size len) [
    | none ↦ raises
    | some n ↦ if length bytes == 0 then more 1 else more (len + n - length bytes)
  ]
  | no_vlen ↦ if length bytes == 0 then more 1 else invalid
]
