-- ===== src/Wire/Writes.antt =====
-- What is written is the datum's bytes behind their number.
use schemesh.Base.{
  ℕ, ◌+◌, ◌≤◌, ◌<◌, ◌≡◌, refl, true, false, Option, none, some, List, ◌++◌, leb, if◌then◌else◌,
  length, arith, inl, inr, lt-cases, Option-cases,
}
use schemesh.Wire.{Datum, ◌>>=◌, max_vlen, put_vlen}
use schemesh.Wire.Data.{put_any}
use schemesh.Wire.Lengths.{header_size, put_vlen-header, put_vlen-beyond, vlen_size-header}
use schemesh.Wire.Sizes.{put_any-Sized}
use schemesh.Wire.Message.{is_void, wire_length, vlen_minus, wire_put, datum_to_wire}
use schemesh.Wire.Framing.{wire_put-length}

bind-none :
    {A B : Type 0} (o : Option A) (f : A → Option B) → ((a : A) → f a ≡ none) → (o >>= f) ≡ none
bind-none none f h = refl
bind-none (some a) f h = h a

-- Without the datum's bytes there is no message.
wire_put-none : (d : Datum) (n : ℕ) → is_void d ≡ false → put_any d ≡ none → wire_put d n ≡ none
unfolding wire_put
wire_put-none d n v e =
    bind-none (vlen_minus n) _
      (λ m. bind-none (if leb m max_vlen then put_vlen m else none) _ (λ h. rw (v, e) refl))

size_written :
    (d : Datum) (body : List ℕ)
    → is_void d ≡ false
    → put_any d ≡ some body
    → length body ≤ max_vlen
    → wire_length d ≡ some (length body + header_size (length body))
unfolding wire_length
size_written d body v e h =
    let b : leb (length body) max_vlen ≡ true = ground arith in
    rw (wire_length, v, put_any-Sized d body e, b, vlen_size-header (length body) h) refl

size_beyond :
    (d : Datum) (body : List ℕ)
    → is_void d ≡ false
    → put_any d ≡ some body
    → max_vlen < length body
    → wire_length d ≡ none
unfolding wire_length
size_beyond d body v e h =
    let b : leb (length body) max_vlen ≡ false = ground arith in
    rw (wire_length, v, put_any-Sized d body e, b) refl

-- The message of a datum other than (void): the bytes that the length of the datum's bytes is written
-- as, and these bytes; and none if one of the two cannot be written.
pub datum_to_wire_lem :
    (d : Datum)
    → is_void d ≡ false
    → datum_to_wire d
      ≡ (put_any d >>= λ body. put_vlen (length body) >>= λ size. some (size ++ body))
unfolding datum_to_wire
datum_to_wire_lem d v = elim (Option-cases (put_any d)) [
  | inl e ↦ rw e (bind-none (wire_length d) (wire_put d) (λ n. wire_put-none d n v e))
  | inr (body, e) ↦ elim (lt-cases max_vlen (length body)) [
    | inl h ↦ rw (e, put_vlen-beyond (length body) h, size_beyond d body v e h) refl
    | inr h ↦
        rw (e, put_vlen-header (length body) h, size_written d body v e h)
          (wire_put-length d body v e h)
  ]
]
