-- ===== src/Wire/Framing.antt =====
-- A message that was written: what the reader makes of it, and of the part of it that has arrived.
use schemesh.Base.{
  ℕ, ◌+◌, ◌-◌, ◌≤◌, ◌≡◌, refl, ◌∙◌, ap, sym, true, false, none, some, List, [], ◌∷◌, ◌++◌, leb,
  ◌==◌, length, arith, Bool-cases, inl, inr, length-append, ◌⊎◌,
}
use mathlib.Core.Path.{subst}
use schemesh.Wire.{
  Datum, integer, char, boolean, null, void, eof_object, bwp_object, string, bytevector, procedure,
  atom, box, pair, max_vlen, put_vlen, vlen_size,
}
use schemesh.Wire.Data.{put_any, len_any}
use schemesh.Wire.Atoms.{some-injective}
use schemesh.Wire.Lists.{bind-some}
use schemesh.Wire.Lengths.{header, header_size, length-header, put_vlen-header, vlen_size-header}
use schemesh.Wire.Message.{is_void, wire_length, vlen_minus, wire_put, datum_to_wire}

is_void-eq : (d : Datum) → is_void d ≡ true → d ≡ atom void
is_void-eq (atom void) h = refl
is_void-eq (atom null) h = absurd (cc)
is_void-eq (atom (integer i)) h = absurd (cc)
is_void-eq (atom (char c)) h = absurd (cc)
is_void-eq (atom (boolean b)) h = absurd (cc)
is_void-eq (atom eof_object) h = absurd (cc)
is_void-eq (atom bwp_object) h = absurd (cc)
is_void-eq (atom (string cs)) h = absurd (cc)
is_void-eq (atom (bytevector bv)) h = absurd (cc)
is_void-eq (atom procedure) h = absurd (cc)
is_void-eq (box d) h = absurd (cc)
is_void-eq (pair head tail) h = absurd (cc)

-- The length of a message gives back that of its payload.
vlen_minus-header_size : (n : ℕ) → n ≤ max_vlen → vlen_minus (n + header_size n) ≡ some n
unfolding vlen_minus
vlen_minus-header_size n h = elim (Bool-cases (leb n 0x7f)) [
  | inl b ↦
      let c : leb (n + 1 - 4) max_vlen ≡ true = ground arith in
      let d : leb (n + 1) 0x80 ≡ true = ground arith in
      let e : n + 1 - 1 ≡ n = omega arith in rw (b, vlen_minus, c, d, e) refl
  | inr b ↦
      let c : leb (n + 4 - 4) max_vlen ≡ true = ground arith in
      let d : leb (n + 4) 0x80 ≡ false = ground arith in
      let e : n + 4 - 4 ≡ n = omega arith in rw (b, vlen_minus, c, d, e) refl
]

-- The length that was computed in advance is that of the bytes, and the assertion holds.
pub wire_put-length :
    (d : Datum) (body : List ℕ)
    → is_void d ≡ false
    → put_any d ≡ some body
    → length body ≤ max_vlen
    → wire_put d (length body + header_size (length body)) ≡ some (header (length body) ++ body)
unfolding wire_put
wire_put-length d body v e h =
    let n = length body in
    let small : leb n max_vlen ≡ true = ground arith in
    let size : (length (header n ++ body) == n + header_size n) ≡ true =
      ground (arith, length-append (header n) body, length-header n) in
    rw (wire_put, vlen_minus-header_size n h, small, put_vlen-header n h, v, e, size) refl

-- What a message is: the byte 0, or the bytes of a datum behind their length.
abbrev IsMessage : Datum → List ℕ → Type 0
IsMessage d bytes =
    ((d ≡ atom void) × (bytes ≡ 0 ∷ []))
    ⊎ ((body : List ℕ) × (put_any d ≡ some body)
        × (length body ≤ max_vlen)
        × (bytes ≡ header (length body) ++ body))

void-message : (bytes : List ℕ) → datum_to_wire (atom void) ≡ some bytes → bytes ≡ 0 ∷ []
unfolding datum_to_wire wire_length wire_put vlen_size vlen_minus put_vlen
void-message bytes e = sym (some-injective e)

-- What `wire-put` writes behind a length that it was given.
put-message :
    (d : Datum) (n : ℕ) (bytes : List ℕ)
    → is_void d ≡ false
    → n ≤ max_vlen
    → wire_put d (n + header_size n) ≡ some bytes
    → (body : List ℕ) × (put_any d ≡ some body) × (length body ≡ n) × (bytes ≡ header n ++ body)
unfolding wire_put
put-message d n bytes v h e =
    let small : leb n max_vlen ≡ true = ground arith in
    let f = rw (wire_put, vlen_minus-header_size n h, small, put_vlen-header n h, v) at e in
    let (body, g, k) = bind-some (put_any d) _ bytes f in
    elim (Bool-cases (length (header n ++ body) == n + header_size n)) [
      | inl b ↦ (
        body,
        g,
        ground (arith, length-append (header n) body, length-header n),
        sym (some-injective (rw b at k)),
      )
      | inr b ↦ let no : none ≡ some bytes = (rw b at k) in absurd (cc)
    ]

wire_length-message :
    (d : Datum) (bytes : List ℕ)
    → is_void d ≡ false
    → datum_to_wire d ≡ some bytes
    → (n : ℕ) × (n ≤ max_vlen)
      × (len_any d ≡ some n)
      × (wire_put d (n + header_size n) ≡ some bytes)
unfolding datum_to_wire wire_length
wire_length-message d bytes v e =
    let (message_len, f, g) = bind-some (wire_length d) (wire_put d) bytes e in
    let (n, f', g') = bind-some (len_any d) _ message_len (rw (wire_length, v) at f) in
    elim (Bool-cases (leb n max_vlen)) [
      | inl b ↦
          let h : n ≤ max_vlen = ground arith in
          let size : some (n + header_size n) ≡ some message_len =
            (rw (b, vlen_size-header n h) at g') in
          (n, h, f', subst (λ t. wire_put d t ≡ some bytes) (sym (some-injective size)) g)
      | inr b ↦ let no : none ≡ some message_len = (rw b at g') in absurd (cc)
    ]

pub message : (d : Datum) (bytes : List ℕ) → datum_to_wire d ≡ some bytes → IsMessage d bytes
message d bytes e = elim (Bool-cases (is_void d)) [
  | inl v ↦ inl (is_void-eq d v, void-message bytes (ap datum_to_wire (sym (is_void-eq d v)) ∙ e))
  | inr v ↦
      let (n, h, len, put) = wire_length-message d bytes v e in
      let (body, g, size, same) = put-message d n bytes v h put in
      inr (body, g, rw (← size) at h, same ∙ ap (λ t. header t ++ body) (sym size))
]
