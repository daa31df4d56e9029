-- ===== src/Wire/Stream.antt =====
-- Reading messages from bytes that arrive one after the other.
use schemesh.Base.{
  ℕ, zero, suc, ◌+◌, ◌-◌, ◌≤◌, ◌<◌, ◌≡◌, refl, ◌∙◌, ap, sym, true, false, some, List, [], ◌∷◌, ◌++◌,
  ltb, leb, ◌==◌, ◌&&◌, if◌then◌else◌, length, take, arith, inl, inr, length-append, lt-cases,
  length-take,
}
use mathlib.Core.List.{append_assoc}
use schemesh.Wire.{Datum, atom, void, max_vlen, get_vlen, vlen, too_long, vlen_values}
use schemesh.Wire.Lengths.{
  header, header_size, length-header, vlen_size-header, get_vlen-header, vlen_values-enough,
  vlen_values-short, get_vlen-cut,
}
use schemesh.Wire.Items.{plain, ReadsIn, ReadsIn-nonempty}
use schemesh.Wire.RoundTrip.{put_any-ReadsIn}
use schemesh.Wire.Framing.{message}
use schemesh.Wire.Message.{datum, more, invalid, datum_to_wire, checked, wire_get}

payload_read :
    (start : ℕ) (d : Datum) (body rest : List ℕ)
    → length body ≤ max_vlen
    → ReadsIn body d
    → wire_get start (header (length body) ++ (body ++ rest)) ≡ datum d rest
unfolding wire_get checked
payload_read start d body rest h r =
    let n = length body in
    let whole = length-append body rest in
    let read : get_vlen (header n ++ (body ++ rest)) ≡ vlen n (body ++ rest) =
      get_vlen-header n (body ++ rest) h ∙ vlen_values-enough n (body ++ rest) h (omega arith) in
    let enough : leb n (length (body ++ rest)) ≡ true = ground arith in
    let not_empty : (n == 0) ≡ false = ground (arith, ReadsIn-nonempty body d r) in
    let ends : (length rest + n == length (body ++ rest)) ≡ true = ground arith in
    rw (wire_get, read, enough, not_empty, r (length (body ++ rest)) rest (omega arith), ends) refl

zero_read : (rest : List ℕ) → get_vlen (0 ∷ rest) ≡ vlen 0 rest
unfolding get_vlen vlen_values
zero_read rest =
    let b : leb 0 (length rest) ≡ true = ground arith in rw (get_vlen, vlen_values, b) refl

void_read : (start : ℕ) (rest : List ℕ) → wire_get start (0 ∷ rest) ≡ datum (atom void) rest
unfolding wire_get
void_read start rest =
    let b : leb 0 (length rest) ≡ true = ground arith in rw (wire_get, zero_read rest, b) refl

-- A message that was written from a datum whose chars are chars is read as the datum, whatever follows
-- it and wherever it starts, and what follows is left.
pub wire_get-datum_to_wire :
    (d : Datum) (bytes rest : List ℕ) (start : ℕ)
    → plain d ≡ true
    → datum_to_wire d ≡ some bytes
    → wire_get start (bytes ++ rest) ≡ datum d rest
wire_get-datum_to_wire d bytes rest start h e = elim (message d bytes e) [
  | inl (v, same) ↦ rw (v, same) (void_read start rest)
  | inr (body, g, small, same) ↦
      rw (same, append_assoc (header (length body)) body rest)
        (payload_read start d body rest small (put_any-ReadsIn d body h g))
]

nothing_read : (start : ℕ) → wire_get start [] ≡ more 1
unfolding wire_get get_vlen
nothing_read start = refl

take-beyond :
    (k : ℕ) (xs ys : List ℕ) → length xs ≤ k → take k (xs ++ ys) ≡ xs ++ take (k - length xs) ys
take-beyond k [] ys h = let same : k - 0 ≡ k = omega arith in ap (λ n. take n ys) (sym same)
take-beyond zero (x ∷ xs) ys h = absurd (omega arith)
take-beyond (suc k) (x ∷ xs) ys h =
    let e : suc k - suc (length xs) ≡ k - length xs = omega arith in
    rw e (ap (λ t. x ∷ t) (take-beyond k xs ys (omega arith)))

take-within : (k : ℕ) (xs ys : List ℕ) → k ≤ length xs → take k (xs ++ ys) ≡ take k xs
take-within zero xs ys h = refl
take-within (suc k) [] ys h = absurd (omega arith)
take-within (suc k) (x ∷ xs) ys h = ap (λ t. x ∷ t) (take-within k xs ys (omega arith))

-- The length has arrived, and not all that it counts.
payload_cut :
    (start n : ℕ) (part : List ℕ)
    → n ≤ max_vlen
    → length part < n
    → wire_get start (header n ++ part) ≡ more (header_size n + n - (header_size n + length part))
unfolding wire_get
payload_cut start n part h k =
    let read : get_vlen (header n ++ part) ≡ too_long n =
      get_vlen-header n part h ∙ vlen_values-short n part h k in
    let size : length (header n ++ part) ≡ header_size n + length part =
      length-append (header n) part ∙ ap (λ t. t + length part) (length-header n) in
    let not_empty : (header_size n + length part == 0) ≡ false = ground arith in
    let sum : n + header_size n ≡ header_size n + n = omega arith in
    rw (wire_get, read, vlen_size-header n h, size, not_empty, sum) refl

-- A part of a length of four bytes has arrived.
header_cut :
    (start n k : ℕ) → 0x7f < n → 0 < k → k < 4 → wire_get start (take k (header n)) ≡ invalid
unfolding wire_get
header_cut start n k h a b =
    let four : header_size n ≡ 4 = ground arith in
    let size : length (take k (header n)) ≡ k =
      length-take k (header n) ∙ omega (arith, length-header n) in
    let not_empty : (k == 0) ≡ false = ground arith in
    rw (wire_get, get_vlen-cut n k h a b, size, not_empty) refl

payload_part :
    (start k : ℕ) (body : List ℕ)
    → length body ≤ max_vlen
    → 0 < k
    → k < header_size (length body) + length body
    → wire_get start (take k (header (length body) ++ body)) ≡ (
        if ltb 0x80 (header_size (length body) + length body) && ltb k 4
        then invalid
        else more (header_size (length body) + length body - k))
payload_part start k body h a b = elim (lt-cases k (header_size (length body))) [
  | inl c ↦
      let n = length body in
      let long : 0x7f < n = ground arith in
      let test : (ltb 0x80 (header_size n + n) && ltb k 4) ≡ true = ground arith in
      rw (test, take-within k (header n) body (omega (arith, length-header n)))
        (header_cut start n k long a (ground arith))
  | inr c ↦
      let n = length body in
      let test : (ltb 0x80 (header_size n + n) && ltb k 4) ≡ false = ground arith in
      let part = take (k - header_size n) body in
      let size : length part ≡ k - header_size n =
        length-take (k - header_size n) body ∙ omega arith in
      let sum : header_size n + length part ≡ k = omega arith in
      rw (test, take-beyond k (header n) body (omega (arith, length-header n)), length-header n)
        (payload_cut start n part h (omega arith) ∙ ap (λ t. more (header_size n + n - t)) sum)
]

-- The first k bytes of a message that was written, fewer than all of them: the reader asks for the bytes
-- that are missing, and with no byte for one. But where the message is longer than 128 bytes, and
-- between one and three bytes of it have arrived, the reader says that they are invalid.
pub wire_get-take :
    (d : Datum) (bytes : List ℕ) (start k : ℕ)
    → datum_to_wire d ≡ some bytes
    → k < length bytes
    → wire_get start (take k bytes) ≡ (
        if k == 0
        then more 1
        else if ltb 0x80 (length bytes) && ltb k 4
        then invalid
        else more (length bytes - k))
wire_get-take d bytes start zero e h = nothing_read start
wire_get-take d bytes start (suc k) e h = elim (message d bytes e) [
  | inl (v, same) ↦ absurd (omega (arith, ap length same))
  | inr (body, g, small, same) ↦
      let size : length bytes ≡ header_size (length body) + length body =
        ap length same
        ∙ length-append (header (length body)) body
        ∙ ap (λ t. t + length body) (length-header (length body)) in
      let some_byte : (suc k == 0) ≡ false = ground arith in
      rw (some_byte, size, same) (payload_part start (suc k) body small (omega arith) (omega arith))
]
