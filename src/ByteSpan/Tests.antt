-- ===== src/ByteSpan/Tests.antt =====
-- containers/bytespan.ss: runs, and the theorems at concrete inputs.
use schemesh.Base.{
  ℕ, ◌≡◌, refl, none, some, List, [], ◌∷◌, get_elem?, replicate, length-replicate, ◌==◌,
}
use schemesh.ByteSpan.{
  ByteSpan, bytespan_set, resize_left, resize_right, set_all, insert_left_u8, insert_right_u8,
  delete_left, bytespan_to_bytevector, bytevector_to_bytespan, bytespan_index, bytespan_ref,
}
use schemesh.ByteSpan.Spec.{
  Op, push_left, push_right, push_left_range, push_right_range, pop_left, pop_right, put, fill, run,
  contents, spec_run,
}
use schemesh.ByteSpan.Refines.{run-spec_run}
use schemesh.ByteSpan.Whole.{
  bytespan_to_bytevector0, bytespan_to_bytevector_in_place, bytespan_copied, bytespan_equal,
}
use schemesh.ByteSpan.Reads.{same_bytes}
use schemesh.ByteSpan.Observed.{reads-run}
use schemesh.Base.Int.{negsuc}

abbrev zeros : ℕ → List ℕ
zeros n = replicate n 0

abbrev two : ByteSpan
two = bytevector_to_bytespan (1 ∷ 2 ∷ [])

-- The span is full, and takes eight bytes.
reallocated :
    insert_right_u8 zeros two (3 ∷ [])
    ≡ some (record { beg = 0; end = 3; vec = 1 ∷ 2 ∷ 3 ∷ 0 ∷ 0 ∷ 0 ∷ 0 ∷ 0 ∷ [] })
unfolding insert_right_u8 resize_right set_all
reallocated = refl

-- In the other direction the bytes stand at the end.
reallocated_left :
    insert_left_u8 zeros two (3 ∷ [])
    ≡ some (record { beg = 5; end = 8; vec = 0 ∷ 0 ∷ 0 ∷ 0 ∷ 0 ∷ 3 ∷ 1 ∷ 2 ∷ [] })
unfolding insert_left_u8 resize_left set_all
reallocated_left = refl

found :
    bytespan_index (record { beg = 1; end = 4; vec = 9 ∷ 1 ∷ 2 ∷ 3 ∷ [] }) 0 3 (λ b. b == 2)
    ≡ some (some 1)
unfolding bytespan_index
found = refl

abbrev session : List Op
session =
    push_left (7 ∷ 8 ∷ [])
    ∷ push_right (9 ∷ [])
    ∷ pop_left 1
    ∷ push_right_range (5 ∷ 6 ∷ 7 ∷ []) 1 3
    ∷ push_left_range (5 ∷ 6 ∷ []) 0 2
    ∷ pop_right 2
    ∷ put 1 4
    ∷ fill 2 5 (negsuc 0)
    ∷ []

session_bytes : spec_run session (1 ∷ 2 ∷ []) ≡ some (5 ∷ 4 ∷ 255 ∷ 255 ∷ 255 ∷ 9 ∷ [])
session_bytes = refl

-- An empty range out of range is an error in front, and not behind.
empty_ranges :
    (spec_run (push_left_range [] 1 1 ∷ []) [] ≡ none)
    × (spec_run (push_right_range [] 1 1 ∷ []) [] ≡ some [])
empty_ranges = (refl, refl)

-- A number that is no byte cannot be stored.
no_bytes :
    (run zeros (push_right (1 ∷ 256 ∷ []) ∷ []) (bytevector_to_bytespan []) ≡ none)
    × (bytespan_set (bytevector_to_bytespan (1 ∷ [])) 0 256 ≡ none)
unfolding insert_right_u8 set_all bytespan_set resize_right
no_bytes = (refl, refl)

run-spec_run_example :
    contents (run zeros session (bytevector_to_bytespan (1 ∷ 2 ∷ [])))
    ≡ spec_run session (1 ∷ 2 ∷ [])
run-spec_run_example = run-spec_run zeros (λ n. length-replicate n 0) session (1 ∷ 2 ∷ [])

-- The two spans that are read below.
abbrev pushed : ByteSpan
pushed = record { beg = 5; end = 8; vec = 0 ∷ 0 ∷ 0 ∷ 0 ∷ 0 ∷ 3 ∷ 1 ∷ 2 ∷ [] }

abbrev cut : ByteSpan
cut = record { beg = 1; end = 3; vec = 4 ∷ 3 ∷ 1 ∷ [] }

reads-run_example :
    ((i : ℕ) → bytespan_ref pushed i ≡ get_elem? (3 ∷ 1 ∷ 2 ∷ []) i)
    × (bytespan_to_bytevector pushed ≡ 3 ∷ 1 ∷ 2 ∷ [])
    × (bytespan_to_bytevector0 zeros pushed ≡ 3 ∷ 1 ∷ 2 ∷ 0 ∷ [])
    × ((bytespan_to_bytevector_in_place pushed).0 ≡ 3 ∷ 1 ∷ 2 ∷ [])
    × (bytespan_to_bytevector (bytespan_to_bytevector_in_place pushed).1 ≡ 3 ∷ 1 ∷ 2 ∷ [])
    × (bytespan_to_bytevector (bytespan_copied zeros pushed) ≡ 3 ∷ 1 ∷ 2 ∷ [])
    × (bytespan_equal pushed cut ≡ some (same_bytes (3 ∷ 1 ∷ 2 ∷ []) (3 ∷ 1 ∷ [])))
unfolding insert_left_u8 resize_left set_all delete_left
reads-run_example =
    reads-run zeros (λ n. length-replicate n 0) (push_left (3 ∷ []) ∷ []) (pop_left 1 ∷ [])
      (1 ∷ 2 ∷ []) (4 ∷ 3 ∷ 1 ∷ []) pushed cut (3 ∷ 1 ∷ 2 ∷ []) (3 ∷ 1 ∷ []) refl refl refl refl
