-- ===== src/Strings/Spec.antt =====
-- What the loops over strings and buffers compute, as plain recursions on one sequence at a time.
use schemesh.Base.{
  ℕ, zero, suc, ◌≡◌, refl, ap, true, List, [], ◌∷◌, ◌++◌, length, drop, ◌≤◌, ◌<◌, arith,
  length-drop,
}
use schemesh.Utf8b.{codepoint_to_utf8b, utf8b_to_codepoint}
use schemesh.Strings.{string_char}
use schemesh.Utf8b.Decode.{utf8b_to_codepoint_bounds}

-- The UTF-8b sequences of all characters, in order.
abbrev pub encode_all : List ℕ → List ℕ
encode_all [] = []
encode_all (c ∷ cs) = codepoint_to_utf8b c 4 ++ encode_all cs

-- At most n characters from the front of a buffer, as a string keeps them, and the bytes that are
-- left.
unfoldable pub decode_some : ℕ → List ℕ → List ℕ × List ℕ
decode_some zero bytes = ([], bytes)
decode_some (suc n) [] = ([], [])
decode_some (suc n) (b ∷ bs) =
    let p = utf8b_to_codepoint (b ∷ bs) true in
    let (out, rest) = decode_some n (drop p.length (b ∷ bs)) in
    (string_char p.codepoint ∷ out, rest)

-- All characters: a buffer has no more of them than bytes.
abbrev pub decode_all : List ℕ → List ℕ
decode_all bytes = (decode_some (length bytes) bytes).0

pub decode_drop-lt :
    (b : ℕ) (bs : List ℕ)
    → length (drop (utf8b_to_codepoint (b ∷ bs) true).length (b ∷ bs)) < length (b ∷ bs)
decode_drop-lt b bs =
    let (lo, _, hi) = utf8b_to_codepoint_bounds b bs true in
    omega (arith, length-drop (utf8b_to_codepoint (b ∷ bs) true).length (b ∷ bs))

-- With a limit of the number of bytes, all of them are read.
pub decode_some-rest : (n : ℕ) (bytes : List ℕ) → length bytes ≤ n → (decode_some n bytes).1 ≡ []
unfolding decode_some
decode_some-rest zero [] h = refl
decode_some-rest zero (b ∷ bs) h = absurd (omega arith)
decode_some-rest (suc n) [] h = refl
decode_some-rest (suc n) (b ∷ bs) h = decode_some-rest n _ (omega (arith, decode_drop-lt b bs))

-- The limit matters only where it stops the reading.
pub decode_some_limit :
    (n : ℕ) (bytes : List ℕ)
    → decode_some (length (decode_some n bytes).0) bytes ≡ decode_some n bytes
unfolding decode_some
decode_some_limit zero bytes = refl
decode_some_limit (suc n) [] = refl
decode_some_limit (suc n) (b ∷ bs) =
    let p = utf8b_to_codepoint (b ∷ bs) true in
    ap {B = List ℕ × List ℕ} (λ r. (string_char p.codepoint ∷ r.0, r.1))
      (decode_some_limit n (drop p.length (b ∷ bs)))

pub decode_some-eq :
    (n m : ℕ) (bytes : List ℕ)
    → length bytes ≤ n
    → length bytes ≤ m
    → decode_some n bytes ≡ decode_some m bytes
unfolding decode_some
decode_some-eq zero zero bytes h k = refl
decode_some-eq zero (suc m) [] h k = refl
decode_some-eq zero (suc m) (b ∷ bs) h k = absurd (omega arith)
decode_some-eq (suc n) zero [] h k = refl
decode_some-eq (suc n) zero (b ∷ bs) h k = absurd (omega arith)
decode_some-eq (suc n) (suc m) [] h k = refl
decode_some-eq (suc n) (suc m) (b ∷ bs) h k =
    let p = utf8b_to_codepoint (b ∷ bs) true in
    ap {B = List ℕ × List ℕ} (λ r. (string_char p.codepoint ∷ r.0, r.1))
      (decode_some-eq n m (drop p.length (b ∷ bs)) (omega (arith, decode_drop-lt b bs))
        (omega (arith, decode_drop-lt b bs)))
