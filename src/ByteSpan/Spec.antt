-- ===== src/ByteSpan/Spec.antt =====
-- The operations that change a span, and the same on sequences of bytes.
use schemesh.Base.{
  ℕ, ◌-◌, Bool, true, ◌&&◌, Option, none, some, List, [], ◌∷◌, ◌++◌, length, take, drop, set,
  replicate, leb, ltb, ◌==◌, if◌then◌else◌,
}
use schemesh.Base.Int.{ℤ}
use schemesh.ByteSpan.{
  ByteSpan, bytespan_to_bytevector, bytespan_clear, bytespan_set, insert_left_u8, insert_right_u8,
  insert_left_bytevector, insert_right_bytevector, delete_left, delete_right, ◌>>=◌,
}
use schemesh.ByteSpan.Whole.{bytespan_fill, is_byte, byte_of}

pub data Op : Type 0 where
  push_left push_right : List ℕ → Op
  push_left_range push_right_range : List ℕ → ℕ → ℕ → Op
  pop_left pop_right : ℕ → Op
  put : ℕ → ℕ → Op
  fill : ℕ → ℕ → ℤ → Op
  clear : Op

abbrev pub run_op : (ℕ → List ℕ) → Op → ByteSpan → Option ByteSpan
run_op fresh (push_left us) sp = insert_left_u8 fresh sp us
run_op fresh (push_right us) sp = insert_right_u8 fresh sp us
run_op fresh (push_left_range ys start end) sp = insert_left_bytevector fresh sp ys start end
run_op fresh (push_right_range ys start end) sp = insert_right_bytevector fresh sp ys start end
run_op fresh (pop_left n) sp = delete_left sp n
run_op fresh (pop_right n) sp = delete_right sp n
run_op fresh (put i u8) sp = bytespan_set sp i u8
run_op fresh (fill start end val) sp = bytespan_fill sp start end val
run_op fresh clear sp = some (bytespan_clear sp)

abbrev pub run : (ℕ → List ℕ) → List Op → ByteSpan → Option ByteSpan
run fresh [] sp = some sp
run fresh (op ∷ ops) sp = run_op fresh op sp >>= run fresh ops

abbrev pub range : List ℕ → ℕ → ℕ → List ℕ
range ys start end = take (end - start) (drop start ys)

abbrev pub is_range : List ℕ → ℕ → ℕ → Bool
is_range ys start end = leb start end && leb end (length ys)

abbrev pub all_bytes : List ℕ → Bool
all_bytes [] = true
all_bytes (u ∷ us) = leb u 255 && all_bytes us

-- The same on sequences. An empty range is in range wherever it is, but in front only within ys.
abbrev pub spec_op : Op → List ℕ → Option (List ℕ)
spec_op (push_left us) xs = if all_bytes us then some (us ++ xs) else none
spec_op (push_right us) xs = if all_bytes us then some (xs ++ us) else none
spec_op (push_left_range ys start end) xs =
    if is_range ys start end then some (range ys start end ++ xs) else none
spec_op (push_right_range ys start end) xs =
    if start == end
    then some xs
    else if is_range ys start end
    then some (xs ++ range ys start end)
    else none
spec_op (pop_left n) xs = if leb n (length xs) then some (drop n xs) else none
spec_op (pop_right n) xs = if leb n (length xs) then some (take (length xs - n) xs) else none
spec_op (put i u8) xs = if ltb i (length xs) && leb u8 255 then some (set xs i u8) else none
spec_op (fill start end val) xs =
    if leb start end && leb end (length xs) && is_byte val
    then some (take start xs ++ (replicate (end - start) (byte_of val) ++ drop end xs))
    else none
spec_op clear xs = some []

abbrev pub spec_run : List Op → List ℕ → Option (List ℕ)
spec_run [] xs = some xs
spec_run (op ∷ ops) xs = elim (spec_op op xs) [ none ↦ none | some ys ↦ spec_run ops ys ]

-- The bytes of a span that is there.
abbrev pub contents : Option ByteSpan → Option (List ℕ)
contents none = none
contents (some q) = some (bytespan_to_bytevector q)
