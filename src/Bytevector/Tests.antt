-- ===== src/Bytevector/Tests.antt =====
-- containers/containers.c on bytevectors: runs, and the theorems at concrete inputs.
use schemesh.Base.{ℕ, ◌≡◌, ◌≢◌, refl, some, [], ◌∷◌, length, get_elem?, ◌≤◌, ◌<◌, ◌+◌, ◌↔◌, List}
use schemesh.Base.Int.{pos, negsuc, negate}
use schemesh.Scheme.{sfalse, fixnum, bytevector}
use schemesh.Bytevector.{
  bytevector_compare, fnv1a, low_byte, bytevector_index_u8, subbytevector_fill, sbytevector,
}
use schemesh.Bytevector.Compare.{Lex, bytevector_compare_lem}
use schemesh.Bytevector.Search.{bytevector_index_u8_found}

abbrev data_bytes : List ℕ
data_bytes = 5 ∷ 1 ∷ 7 ∷ 1 ∷ 9 ∷ []

prefix_first : bytevector_compare (1 ∷ 2 ∷ []) (1 ∷ 2 ∷ 0 ∷ []) ≡ negsuc 0
unfolding bytevector_compare
prefix_first = refl

-- FNV-1a of no bytes, and of "a".
hash_nothing : fnv1a [] ≡ 0xcbf29ce484222325
unfolding fnv1a
hash_nothing = refl

hash_a : fnv1a (97 ∷ []) ≡ 0xaf63dc4c8601ec8c
unfolding fnv1a
hash_a = refl

index_one : bytevector_index_u8 (bytevector data_bytes) (pos 2) (pos 5) (pos 1) ≡ fixnum (pos 1)
unfolding bytevector_index_u8
index_one = refl

fill_minus_one :
    subbytevector_fill (bytevector data_bytes) (pos 1) (pos 3) (negsuc 0)
    ≡ bytevector (5 ∷ 255 ∷ 255 ∷ 1 ∷ 9 ∷ [])
unfolding subbytevector_fill
fill_minus_one = refl

copy_two : sbytevector (λ n. some (0 ∷ 0 ∷ [])) (1 ∷ 2 ∷ 3 ∷ []) 2 ≡ some (bytevector (1 ∷ 2 ∷ []))
unfolding sbytevector
copy_two = refl

bytevector_compare_lem_example :
    ((bytevector_compare (1 ∷ []) (2 ∷ []) ≡ negsuc 0) ↔ Lex (1 ∷ []) (2 ∷ []))
    × ((bytevector_compare (1 ∷ []) (2 ∷ []) ≡ pos 0) ↔ ◌≡◌ {A = List ℕ} (1 ∷ []) (2 ∷ []))
    × (bytevector_compare (2 ∷ []) (1 ∷ []) ≡ negate (bytevector_compare (1 ∷ []) (2 ∷ [])))
bytevector_compare_lem_example = bytevector_compare_lem (1 ∷ []) (2 ∷ [])

bytevector_index_u8_found_example :
    (2 + 1 < 5)
    × (5 ≤ length data_bytes)
    × (get_elem? data_bytes (2 + 1) ≡ some (low_byte (pos 1)))
    × ((j : ℕ) → j < 1 → get_elem? data_bytes (2 + j) ≢ some (low_byte (pos 1)))
bytevector_index_u8_found_example = bytevector_index_u8_found data_bytes 2 5 1 (pos 1) index_one

index_absent : bytevector_index_u8 (bytevector data_bytes) (pos 2) (pos 5) (pos 5) ≡ sfalse
unfolding bytevector_index_u8
index_absent = refl
