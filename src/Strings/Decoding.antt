-- ===== src/Strings/Decoding.antt =====
-- The loops that read a buffer, against `decode_some`.
use mathlib.Core.Path.{subst}
use mathlib.Core.List.{append_assoc, append-nil}
use schemesh.Base.{
  length-replicate, take-all, drop-all, take-append-drop, length-take, ◌||◌, ◌==◌, ◌⊎◌, ℕ, zero,
  suc, ◌≡◌, refl, ap, ◌∙◌, true, List, [], ◌∷◌, ◌++◌, length, drop, take, set, ◌≤◌, ◌<◌, ◌+◌, ◌-◌,
  ◌^◌, arith, length-drop, length-append, replicate, Option, some, Bool-cases, inl, inr, leb,
}
use schemesh.Base.Int.{ℤ, pos}
use schemesh.Utf8b.{utf8b_to_codepoint}
use schemesh.Utf8b.Decode.{utf8b_to_codepoint_bounds, utf8b_to_codepoint-length}
use schemesh.Strings.{
  string_char, count_loop, store_loop, bytes_utf8b_to_string_length, bytes_utf8b_to_string_append,
  sstring_utf8b,
}
use schemesh.Strings.Spec.{
  decode_some, decode_all, decode_drop-lt, decode_some-rest, decode_some_limit,
}

count_loop-decode_some :
    (f : ℕ) (bytes : List ℕ) (ret : ℕ)
    → length bytes ≤ f
    → count_loop f bytes ret ≡ ret + length (decode_some f bytes).0
unfolding count_loop decode_some
count_loop-decode_some zero [] ret h = omega arith
count_loop-decode_some zero (b ∷ bs) ret h = absurd (omega arith)
count_loop-decode_some (suc f) [] ret h = omega arith
count_loop-decode_some (suc f) (b ∷ bs) ret h =
    let bounds = utf8b_to_codepoint_bounds b bs true in
    let e = utf8b_to_codepoint-length (b ∷ bs) in
    rw (← e) (
      ground (
        arith,
        bounds,
        decode_drop-lt b bs,
        count_loop-decode_some f (drop (utf8b_to_codepoint (b ∷ bs) true).length (b ∷ bs))
            (ret + 1),
      ))

pub set-append :
    (pre old : List ℕ) (x v : ℕ) → set (pre ++ (x ∷ old)) (length pre) v ≡ (pre ++ (v ∷ [])) ++ old
set-append [] old x v = refl
set-append (y ∷ pre) old x v = ap (λ t. y ∷ t) (set-append pre old x v)

-- One round, and the two ways in which the loop ends.
store_loop_step :
    (f b : ℕ) (bs str : List ℕ) (str_pos str_end : ℕ)
    → str_pos < str_end
    → store_loop (suc f) (b ∷ bs) str str_pos str_end true ≡ (
        let p = utf8b_to_codepoint (b ∷ bs) true in
        store_loop f
          (drop p.length (b ∷ bs))
          (set str str_pos (string_char p.codepoint))
          (suc str_pos)
          str_end
          true)
unfolding store_loop
store_loop_step f b bs str str_pos str_end h =
    let bounds = utf8b_to_codepoint_bounds b bs true in ground (arith, bounds)

store_loop_full :
    (f : ℕ) (bytes str : List ℕ) (str_pos str_end : ℕ)
    → str_end ≤ str_pos
    → store_loop f bytes str str_pos str_end true ≡ (bytes, str, str_pos)
unfolding store_loop
store_loop_full zero bytes str str_pos str_end h = refl
store_loop_full (suc f) bytes str str_pos str_end h = ground arith

store_loop_done :
    (f : ℕ) (str : List ℕ) (str_pos str_end : ℕ)
    → store_loop f [] str str_pos str_end true ≡ ([], str, str_pos)
unfolding store_loop
store_loop_done zero str str_pos str_end = refl
store_loop_done (suc f) str str_pos str_end = ground arith

-- The characters are stored one behind the other, and nothing else of the string changes.
store_loop-decode_some :
    (f : ℕ) (bytes pre old : List ℕ) (limit start end : ℕ)
    → length bytes ≤ f
    → limit ≤ length old
    → start ≡ length pre
    → end ≡ start + limit
    → store_loop f bytes (pre ++ old) start end true ≡ (
      (decode_some limit bytes).1,
      pre ++ ((decode_some limit bytes).0 ++ drop (length (decode_some limit bytes).0) old),
      start + length (decode_some limit bytes).0,
    )
unfolding decode_some
store_loop-decode_some f bytes pre old zero start end h k p q =
    store_loop_full f bytes _ start end (omega arith) ∙ ground arith
store_loop-decode_some f [] pre old (suc limit) start end h k p q =
    store_loop_done f _ start end ∙ ground arith
store_loop-decode_some zero (b ∷ bs) pre old (suc limit) start end h k p q = absurd (omega arith)
store_loop-decode_some (suc f) (b ∷ bs) pre [] (suc limit) start end h k p q = absurd (omega arith)
store_loop-decode_some (suc f) (b ∷ bs) pre (x ∷ old) (suc limit) start end h k p q =
    let c = string_char (utf8b_to_codepoint (b ∷ bs) true).codepoint in
    let rest = drop (utf8b_to_codepoint (b ∷ bs) true).length (b ∷ bs) in
    let stored : set (pre ++ (x ∷ old)) start c ≡ (pre ++ (c ∷ [])) ++ old =
      rw p (set-append pre old x c) in
    let ih =
      store_loop-decode_some f rest (pre ++ (c ∷ [])) old limit (suc start) end
        (omega (arith, decode_drop-lt b bs)) (omega arith)
        (omega (arith, length-append pre (c ∷ []))) (omega arith) in
    store_loop_step f b bs (pre ++ (x ∷ old)) start end (omega arith)
    ∙ rw stored (
        ih
        ∙ ground (
          arith,
          append_assoc pre (c ∷ [])
              ((decode_some limit rest).0 ++ drop (length (decode_some limit rest).0) old),
        ))

-- The counting loop gives the number of characters of the whole buffer.
pub bytes_utf8b_to_string_length_lem :
    (bytes : List ℕ) → bytes_utf8b_to_string_length bytes ≡ length (decode_all bytes)
unfolding bytes_utf8b_to_string_length
bytes_utf8b_to_string_length_lem bytes =
    count_loop-decode_some (length bytes) bytes 0 (omega arith) ∙ omega arith

store_whole :
    (bytes str : List ℕ) (start end : ℕ)
    → start ≤ end
    → end ≤ length str
    → let (out, rest) = decode_some (end - start) bytes in
      store_loop (length bytes) bytes str start end true
      ≡ (rest, take start str ++ (out ++ drop (length out) (drop start str)), start + length out)
store_whole bytes str start end h k =
    subst
      (λ t. store_loop (length bytes) bytes t start end true ≡ (
        (decode_some (end - start) bytes).1,
        take start str
            ++ ((decode_some (end - start) bytes).0
                ++ drop (length (decode_some (end - start) bytes).0) (drop start str)),
        start + length (decode_some (end - start) bytes).0,
      ))
      (take-append-drop start str)
      (store_loop-decode_some (length bytes) bytes (take start str) (drop start str) (end - start)
        start end (omega arith) (omega (arith, length-drop start str))
        (omega (arith, length-take start str)) (omega arith))

nothing_read :
    (n : ℕ) (bytes : List ℕ) → (length bytes ≡ 0) ⊎ (n ≡ 0) → decode_some n bytes ≡ ([], bytes)
unfolding decode_some
nothing_read zero bytes h = refl
nothing_read (suc n) [] h = refl
nothing_read (suc n) (b ∷ bs) h = absurd (omega arith)

-- At the end of the input, and for a range within the string: the characters that fit in the range
-- are stored in it, the rest of the string stays, and the result counts the bytes read and the
-- characters stored.
pub bytes_utf8b_to_string_append_lem :
    (bytes str : List ℕ) (start end : ℕ)
    → start ≤ end
    → end ≤ length str
    → let (out, rest) = decode_some (end - start) bytes in
      bytes_utf8b_to_string_append bytes str start end true ≡ (
        record { byte_n = length bytes - length rest; char_n = length out },
        take start str ++ (out ++ drop (length out) (drop start str)),
      )
unfolding bytes_utf8b_to_string_append
bytes_utf8b_to_string_append_lem bytes str start end h k =
    elim (Bool-cases (length bytes == 0 || leb end start)) [
      | inl e ↦
          rw (e, nothing_read (end - start) bytes (ground arith))
            (ground (arith, take-append-drop start str))
      | inr e ↦ rw (e, store_whole bytes str start end h k) (ground arith)
    ]

sub-zero : (n : ℕ) → n - 0 ≡ n
sub-zero n = omega arith

pub length-decode_some-le : (n : ℕ) (bytes : List ℕ) → length (decode_some n bytes).0 ≤ length bytes
unfolding decode_some
length-decode_some-le zero bytes = omega arith
length-decode_some-le (suc n) [] = omega arith
length-decode_some-le (suc n) (b ∷ bs) = omega (
  arith,
  decode_drop-lt b bs,
  length-decode_some-le n (drop (utf8b_to_codepoint (b ∷ bs) true).length (b ∷ bs)),
)

-- A new string of the length that was counted takes the whole buffer.
fill_new :
    (bytes : List ℕ)
    → let slen = length (decode_all bytes) in
      bytes_utf8b_to_string_append bytes (replicate slen 0) 0 slen true
      ≡ (record { byte_n = length bytes; char_n = slen }, decode_all bytes)
fill_new bytes =
    let slen = length (decode_all bytes) in
    bytes_utf8b_to_string_append_lem bytes (replicate slen 0) 0 slen (omega arith)
      (omega (arith, length-replicate {A = ℕ} slen 0))
    ∙ rw
        (
          sub-zero slen,
          decode_some_limit (length bytes) bytes,
          decode_some-rest (length bytes) bytes (omega arith),
          drop-all {A = ℕ} slen (replicate slen 0) (omega (arith, length-replicate {A = ℕ} slen 0)),
          append-nil (decode_all bytes),
        )
        (ground arith)

-- Fewer than 2^63 bytes become the string of their characters: the conversion itself never fails.
-- It relies on `Smake_string` making a string of the length that was counted.
pub sstring_utf8b_lem :
    (smake_string : ℤ → Option (List ℕ)) (bytes : List ℕ)
    → length bytes < 2 ^ 63
    → smake_string (pos (length (decode_all bytes)))
      ≡ some (replicate (length (decode_all bytes)) 0)
    → sstring_utf8b smake_string bytes (some (length bytes)) ≡ some (decode_all bytes)
unfolding sstring_utf8b
sstring_utf8b_lem smake_string bytes small made = ground (
  arith,
  take-all (length bytes) bytes,
  bytes_utf8b_to_string_length_lem bytes,
  length-decode_some-le (length bytes) bytes,
  made,
  fill_new bytes,
)
