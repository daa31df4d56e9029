-- ===== src/Strings/Encoding.antt =====
-- The loops that write a string into a bytevector, against `encode_all`.
use mathlib.Core.Path.{subst}
use mathlib.Core.List.{append_assoc}
use native.Mathlib.Nat.{zero-add, suc-add}
use schemesh.Base.{
  take-all, drop-all, take-nil, ltb, if◌then◌else◌, ℕ, zero, suc, ◌≡◌, refl, ◌∙◌, true, List, [],
  ◌∷◌, ◌++◌, length, drop, take, ◌≤◌, ◌<◌, ◌+◌, ◌-◌, arith, length-drop, length-append, Bool-cases,
  inl, inr, All, take-append-drop, length-take,
}
use schemesh.Base.Int.{pos, leb_ℤ}
use schemesh.Scheme.{fixnum, char, string, bytevector}
use schemesh.Utf8b.{codepoint_to_utf8b, codepoint_to_utf8b_length}
use schemesh.Utf8b.Encode.{
  IsEncodable, length-encoded, codepoint_to_utf8b_length_pos, codepoint_to_utf8b_space,
  codepoint_to_utf8b-nil,
}
use schemesh.Strings.{
  length_loop, append_loop, write_bytes, chars_in, string_to_utf8b_length, string_to_utf8b_append,
}
use schemesh.Strings.Spec.{encode_all}
use schemesh.Strings.Decoding.{set-append}

length_loop-encode_all :
    (cs : List ℕ) (result : ℕ)
    → All IsEncodable cs
    → length_loop cs result ≡ result + length (encode_all cs)
unfolding length_loop
length_loop-encode_all [] result h = omega arith
length_loop-encode_all (c ∷ cs) result (ok, h) = omega (
  arith,
  length_loop-encode_all cs (result + codepoint_to_utf8b_length c) h,
  length-encoded c ok,
  length-append (codepoint_to_utf8b c 4) (encode_all cs),
)

write_bytes-append :
    (bs pre old : List ℕ) (at_ : ℕ)
    → length bs ≤ length old
    → at_ ≡ length pre
    → write_bytes (pre ++ old) at_ bs ≡ pre ++ (bs ++ drop (length bs) old)
write_bytes-append [] pre old at_ h e = refl
write_bytes-append (b ∷ bs) pre [] at_ h e = absurd (omega arith)
write_bytes-append (b ∷ bs) pre (x ∷ old) at_ h e =
    rw (e, set-append pre old x b)
      (write_bytes-append bs (pre ++ (b ∷ [])) old (suc (length pre)) (omega arith)
          (omega (arith, length-append pre (b ∷ [])))
        ∙ append_assoc pre (b ∷ []) (bs ++ drop (length bs) old))

drop-drop : (m n : ℕ) (xs : List ℕ) → drop n (drop m xs) ≡ drop (m + n) xs
drop-drop zero n xs = rw zero-add
drop-drop (suc m) zero [] = rw suc-add
drop-drop (suc m) (suc n) [] = rw suc-add
drop-drop (suc m) n (x ∷ xs) = rw suc-add (drop-drop m n xs)

-- One character for which there is space.
append_loop_step :
    (c : ℕ) (cs bvec : List ℕ) (opos : ℕ)
    → IsEncodable c
    → opos + codepoint_to_utf8b_length c ≤ length bvec
    → append_loop (c ∷ cs) bvec opos
      ≡ append_loop cs
          (write_bytes bvec opos (codepoint_to_utf8b c 4))
          (opos + length (codepoint_to_utf8b c 4))
unfolding append_loop
append_loop_step c cs bvec opos ok fits =
    rw (codepoint_to_utf8b_space c (length bvec - opos) ok (omega arith))
      (ground (arith, length-encoded c ok, codepoint_to_utf8b_length_pos c))

-- The bytes are stored one behind the other, and nothing else of the bytevector changes.
pub append_loop-encode_all :
    (cs pre old : List ℕ) (opos : ℕ)
    → All IsEncodable cs
    → length (encode_all cs) ≤ length old
    → opos ≡ length pre
    → append_loop cs (pre ++ old) opos ≡ (
      fixnum (pos (opos + length (encode_all cs))),
      pre ++ (encode_all cs ++ drop (length (encode_all cs)) old),
    )
unfolding append_loop
append_loop-encode_all [] pre old opos h k e = ground arith
append_loop-encode_all (c ∷ cs) pre old opos (ok, h) k e =
    let E = codepoint_to_utf8b c 4 in
    let rest = encode_all cs in
    let both = length-append E rest in
    append_loop_step c cs (pre ++ old) opos ok
      (omega (arith, length-encoded c ok, both, length-append pre old))
    ∙ rw
        (
          write_bytes-append E pre old opos (omega (arith, both)) e,
          ← append_assoc pre E (drop (length E) old),
        )
        (append_loop-encode_all cs (pre ++ E) (drop (length E) old) (opos + length E) h
            (omega (arith, both, length-drop (length E) old)) (omega (arith, length-append pre E))
          ∙ ground (
            arith,
            both,
            drop-drop (length E) (length rest) old,
            append_assoc pre E (rest ++ drop (length E + length rest) old),
            append_assoc E rest (drop (length E + length rest) old),
          ))

-- The bounds that the code cuts to the length of the string select the same characters.
chars_in_clamped :
    (cs : List ℕ) (start end : ℕ)
    → chars_in cs
        (if ltb start (length cs) then start else length cs)
        (if ltb end (length cs) then end else length cs)
      ≡ chars_in cs start end
chars_in_clamped cs start end = elim (Bool-cases (ltb start (length cs))) [
  | inr late ↦ rw (
    late,
    drop-all (length cs) cs (omega arith),
    drop-all start cs (ground arith),
    take-nil _,
    take-nil _,
  )
  | inl early ↦ rw early (elim (Bool-cases (ltb end (length cs))) [
    | inl inside ↦ rw inside
    | inr past ↦ rw (
      past,
      take-all (length cs - start) (drop start cs) (omega (arith, length-drop start cs)),
      take-all (end - start) (drop start cs) (ground (arith, length-drop start cs)),
    )
  ])
]

chars_in-nil : (cs : List ℕ) (start end : ℕ) → end ≤ start → chars_in cs start end ≡ []
chars_in-nil cs start end h = let e : end - start ≡ 0 = omega arith in rw e

append_whole :
    (cs bvec : List ℕ) (ostart : ℕ)
    → All IsEncodable cs
    → ostart + length (encode_all cs) ≤ length bvec
    → append_loop cs bvec ostart ≡ (
      fixnum (pos (ostart + length (encode_all cs))),
      take ostart bvec ++ (encode_all cs ++ drop (length (encode_all cs)) (drop ostart bvec)),
    )
append_whole cs bvec ostart ok fits =
    subst
      (λ t. append_loop cs t ostart ≡ (
        fixnum (pos (ostart + length (encode_all cs))),
        take ostart bvec ++ (encode_all cs ++ drop (length (encode_all cs)) (drop ostart bvec)),
      ))
      (take-append-drop ostart bvec)
      (append_loop-encode_all cs (take ostart bvec) (drop ostart bvec) ostart ok
        (omega (arith, length-drop ostart bvec)) (omega (arith, length-take ostart bvec)))

-- The length that is promised for a range of encodable characters is that of their sequences.
pub string_to_utf8b_length_lem :
    (cs : List ℕ) (start end : ℕ)
    → All IsEncodable (chars_in cs start end)
    → string_to_utf8b_length (string cs) (pos start) (pos end)
      ≡ length (encode_all (chars_in cs start end))
unfolding string_to_utf8b_length
string_to_utf8b_length_lem cs start end ok =
    rw (chars_in_clamped cs start end, length_loop-encode_all (chars_in cs start end) 0 ok)
      (ground (arith, chars_in-nil cs start end))

-- For a range of encodable characters, and with enough space from `ostart` on, their sequences are
-- stored there, the rest of the bytevector stays, and the result is the position behind the last
-- byte.
pub string_to_utf8b_append_lem :
    (cs bvec : List ℕ) (start end ostart : ℕ)
    → start ≤ end
    → All IsEncodable (chars_in cs start end)
    → ostart + length (encode_all (chars_in cs start end)) ≤ length bvec
    → let out = encode_all (chars_in cs start end) in
      string_to_utf8b_append (string cs) (pos start) (pos end) (bytevector bvec) (pos ostart) ≡ (
        fixnum (pos (ostart + length out)),
        bytevector (take ostart bvec ++ (out ++ drop (length out) (drop ostart bvec))),
      )
unfolding string_to_utf8b_append
string_to_utf8b_append_lem cs bvec start end ostart h ok fits =
    let within : leb_ℤ (pos start) (pos end) ≡ true = ground arith in
    let first : leb_ℤ (pos 0) (pos start) ≡ true = ground arith in
    let space : leb_ℤ (pos 0) (pos ostart) ≡ true = ground arith in
    rw (within, first, space, chars_in_clamped cs start end)
      (ground (arith, append_whole (chars_in cs start end) bvec ostart ok fits))

-- Where space is left for a part of an encodable character only, the loop returns that character,
-- as if it were invalid, and writes nothing.
pub string_to_utf8b_append_split :
    (c : ℕ) (cs bvec : List ℕ) (opos : ℕ)
    → IsEncodable c
    → opos < length bvec
    → length bvec < opos + codepoint_to_utf8b_length c
    → append_loop (c ∷ cs) bvec opos ≡ (char c, bvec)
unfolding append_loop
string_to_utf8b_append_split c cs bvec opos ok lo hi =
    rw ((codepoint_to_utf8b-nil c (length bvec - opos)).1 (inr (omega arith))) (ground arith)
