-- ===== src/JobStatus.antt =====
-- posix/status.ss: the status of a job. Its display and its form on the wire are left out.
pub mod Names
pub mod Wait
pub mod Survives
mod Tests
use schemesh.Base.{
  ℕ, zero, suc, ◌+◌, ◌-◌, ◌%◌, Bool, true, false, Option, none, some, List, [], ◌∷◌, ◌==◌,
  if◌then◌else◌,
}
use schemesh.Base.Int.{ℤ, pos, negsuc}
use schemesh.Scheme.{Ptr, sfalse, fixnum, symbol}

pub data Kind : Type 0 where
  new running stopped exception failed killed ok : Kind

-- The status `(void)`, and the records `%status`. A value is a datum, a condition, a status, or a list
-- of results.
mutual
  pub data Status : Type 0 where
    void : Status
    status : Kind → Value → Status

  pub data Value : Type 0 where
    datum : Ptr → Value
    condition : List ℕ → Value
    is_status : Status → Value
    results : Values → Value

  pub data Values : Type 0 where
    nil : Values
    cons : Value → Values → Values

-- A status 'running, with a job-id or #f; none is the failed assertion.
unfoldable pub run_status : Value → Option Status
run_status (datum sfalse) = some (status running (datum sfalse))
run_status (datum (fixnum id)) = some (status running (datum (fixnum id)))
run_status _ = none

-- `stopped` and `killed`: a symbol, or #f.
unfoldable pub signal_status : Kind → Value → Option Status
signal_status kind (datum sfalse) = some (status kind (datum sfalse))
signal_status kind (datum (symbol name)) = some (status kind (datum (symbol name)))
signal_status kind _ = none

unfoldable pub exception_status : Value → Option Status
exception_status (datum sfalse) = some (status exception (datum sfalse))
exception_status (condition text) = some (status exception (condition text))
exception_status _ = none

unfoldable pub failed_status : Value → Status
failed_status val = status failed val

-- `list->ok`: one value that is #f, or a status, is no result.
unfoldable pub list_to_ok : Values → Status
unfolding failed_status
list_to_ok nil = status ok (results nil)
list_to_ok (cons (datum sfalse) nil) = failed_status (datum sfalse)
list_to_ok (cons (is_status s) nil) = s
list_to_ok (cons val nil) = status ok (results (cons val nil))
list_to_ok (cons val (cons other vals)) = status ok (results (cons val (cons other vals)))

abbrev pub status_kind : Status → Kind
status_kind void = ok
status_kind (status kind val) = kind

unfoldable pub status_value : Status → Value
status_value void = is_status void
status_value (status ok (results nil)) = is_status void
status_value (status ok (results (cons val vals))) = val
status_value (status kind val) = val

unfoldable pub ok_list : Status → Values
ok_list void = cons (is_status void) nil
ok_list (status ok (results vals)) = vals
ok_list (status kind val) = nil

abbrev pub is_started_kind : Kind → Bool
is_started_kind running = true
is_started_kind stopped = true
is_started_kind _ = false

abbrev pub is_finished_kind : Kind → Bool
is_finished_kind ok = true
is_finished_kind exception = true
is_finished_kind failed = true
is_finished_kind killed = true
is_finished_kind _ = false

abbrev pub is_ok_kind : Kind → Bool
is_ok_kind ok = true
is_ok_kind _ = false

-- `started?`, `finished?` and `ok?`
abbrev pub is_started : Status → Bool
is_started s = is_started_kind (status_kind s)

abbrev pub is_finished : Status → Bool
is_finished s = is_finished_kind (status_kind s)

abbrev pub is_ok : Status → Bool
is_ok s = is_ok_kind (status_kind s)

-- `(fxand 255 val)`, also below 0.
abbrev pub low_byte : ℤ → ℕ
low_byte (pos n) = n % 256
low_byte (negsuc n) = 255 - n % 256

abbrev pub value_byte : Value → ℕ
value_byte (datum (fixnum i)) = low_byte i
value_byte _ = 255

-- The value of a record `%status`.
abbrev pub record_value : Status → Value
record_value void = is_status void
record_value (status kind val) = val

-- `status->c-exit-value`
unfoldable pub c_exit_value : Status → ℕ
c_exit_value s =
    if is_ok s
    then 0
    else (let value = value_byte (record_value s) in if value == 0 then 1 else value)
