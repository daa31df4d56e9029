-- ===== src/Wire/Tests.antt =====
-- wire/wire.ss: messages, and the theorems at concrete inputs.
use schemesh.Base.{
  ℕ, ◌≡◌, refl, some, List, [], ◌∷◌, ◌++◌, take, length, replicate, ◌==◌, ltb, ◌&&◌, ◌-◌,
  if◌then◌else◌, arith,
}
use schemesh.Base.Int.{negsuc}
use schemesh.Wire.{Datum, integer, char, string, atom, pair, put_vlen, get_vlen, vlen_size, ◌>>=◌}
use schemesh.Wire.Data.{put_any, get_any, len_any}
use schemesh.Wire.Message.{
  datum_to_wire, wire_get, datum, more, invalid, raises, wire_length, wire_put, vlen_minus,
}
use schemesh.Wire.Stream.{wire_get-datum_to_wire, wire_get-take}
use schemesh.Wire.Writes.{datum_to_wire_lem}

abbrev abc : Datum
abc =
    pair (atom (integer (negsuc 299)))
      (pair (atom (char 0x20ac)) (atom (string (97 ∷ 0x1f600 ∷ []))))

sent :
    datum_to_wire abc
    ≡ some (
        19 ∷ 37 ∷ 3 ∷ 0 ∷ 0 ∷ 0 ∷ 17 ∷ 212 ∷ 254 ∷ 32 ∷ 172 ∷ 32 ∷ 43 ∷ 2 ∷ 97 ∷ 0 ∷ 0 ∷ 0 ∷ 0xf6
        ∷ 1 ∷ [])
unfolding datum_to_wire wire_length wire_put vlen_minus vlen_size put_any put_vlen len_any
sent = refl

long_vlen : put_vlen 300 ≡ some (0xac ∷ 2 ∷ 0 ∷ 0 ∷ [])
unfolding put_vlen
long_vlen = refl

-- The tag of a signed byte at the end of the bytevector.
tag_alone : wire_get 0 (1 ∷ 16 ∷ []) ≡ raises
unfolding wire_get get_vlen get_any
tag_alone = refl

-- The first two bytes of a header of four.
header_cut : wire_get 0 (0xac ∷ 2 ∷ []) ≡ invalid
unfolding wire_get get_vlen get_any
header_cut = refl

wire_get-datum_to_wire_example :
    wire_get 0 (
      (19 ∷ 37 ∷ 3 ∷ 0 ∷ 0 ∷ 0 ∷ 17 ∷ 212 ∷ 254 ∷ 32 ∷ 172 ∷ 32 ∷ 43 ∷ 2 ∷ 97 ∷ 0 ∷ 0 ∷ 0 ∷ 0xf6 ∷ 1
        ∷ [])
      ++ (7 ∷ []))
    ≡ datum abc (7 ∷ [])
wire_get-datum_to_wire_example = wire_get-datum_to_wire abc _ (7 ∷ []) 0 refl sent

abbrev long_string : Datum
long_string = atom (string (replicate 130 97))

abbrev long_message : List ℕ
long_message = (0x87 ∷ 1 ∷ 0 ∷ 0 ∷ []) ++ ((41 ∷ 0x82 ∷ 1 ∷ 0 ∷ 0 ∷ []) ++ replicate 130 97)

long_sent : datum_to_wire long_string ≡ some long_message
unfolding datum_to_wire wire_length wire_put vlen_minus vlen_size put_any put_vlen len_any
long_sent = refl

wire_get-take_example : wire_get 0 (take 2 long_message) ≡ (
    if 2 == 0
    then more 1
    else if ltb 0x80 (length long_message) && ltb 2 4
    then invalid
    else more (length long_message - 2))
wire_get-take_example = wire_get-take long_string long_message 0 2 long_sent (omega arith)

datum_to_wire_lem_example :
    datum_to_wire abc
    ≡ (put_any abc >>= λ body. put_vlen (length body) >>= λ size. some (size ++ body))
datum_to_wire_lem_example = datum_to_wire_lem abc refl
