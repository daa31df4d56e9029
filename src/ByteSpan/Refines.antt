-- ===== src/ByteSpan/Refines.antt =====
-- A span is a sequence of bytes that grows and shrinks at both ends.
use schemesh.Base.{
  ℕ, ◌+◌, ◌-◌, ◌≡◌, sym, true, ◌&&◌, List, [], ◌∷◌, ◌++◌, arith, length, take, drop, leb, ltb, ◌==◌,
  Bool-cases, inl, inr, length-take, length-drop, take-append-drop,
}
use mathlib.Core.Path.{subst}
use schemesh.ByteSpan.{
  ByteSpan, bytevector_to_bytespan, bytespan_set, insert_left_u8, insert_right_u8,
  insert_left_bytevector, insert_right_bytevector, insert_left_bytespan, insert_right_bytespan,
  delete_left, delete_right,
}
use schemesh.ByteSpan.Spec.{
  Op, push_left, push_right, push_left_range, push_right_range, pop_left, pop_right, put, fill,
  clear, run_op, run, all_bytes, range, is_range, spec_op, spec_run, contents,
}
use schemesh.ByteSpan.Fill.{bytespan_fill-fails}
use schemesh.ByteSpan.Whole.{bytespan_fill, is_byte}
use schemesh.ByteSpan.Lists.{split_at}
use schemesh.Base.Int.{ℤ}
use schemesh.ByteSpan.Holds.{
  Holds, Gives, Holds-length, bytevector-Holds, clear-Holds, delete_left-Gives, delete_right-Gives,
  delete-fails,
}
use schemesh.ByteSpan.Insert.{
  bytespan_set-fails, insert_u8-fails, insert_left_u8-Gives, insert_right_u8-Gives,
  insert_left_bytespan-Gives, insert_right_bytespan-Gives,
}
use schemesh.ByteSpan.Agrees.{
  Agrees, Gives-Agrees, in_parts, put_parts, fill_parts, right_outside, bind-Agrees,
  Agrees-contents,
}

module _ (fresh : ℕ → List ℕ) (sized : (n : ℕ) → length (fresh n) ≡ n) where
  module _ (ys : List ℕ) (start end : ℕ) (inside : is_range ys start end ≡ true) where
    abbrev source : ByteSpan
    source = bytevector_to_bytespan ys

    held :
        Holds source (take start ys ++ (range ys start end ++ drop (end - start) (drop start ys)))
    held = subst (Holds source) (in_parts ys start end inside).0 (bytevector-Holds ys)

    range_left :
        (sp : ByteSpan) (xs : List ℕ)
        → Holds sp xs
        → Gives (insert_left_bytespan fresh sp source start end) (range ys start end ++ xs)
    range_left sp xs h =
        let (parts, s, e) = in_parts ys start end inside in
        let F : ℕ → ℕ → Type 0 =
          λ a b. Gives (insert_left_bytespan fresh sp source a b) (range ys start end ++ xs) in
        subst (F start) e (
          subst (λ a. F a (length (take start ys) + length (range ys start end))) s
            (insert_left_bytespan-Gives fresh sized source (take start ys) (range ys start end)
              (drop (end - start) (drop start ys)) held sp xs h))

    range_right :
        (sp : ByteSpan) (xs : List ℕ)
        → Holds sp xs
        → Gives (insert_right_bytespan fresh sp source start end) (xs ++ range ys start end)
    range_right sp xs h =
        let (parts, s, e) = in_parts ys start end inside in
        let F : ℕ → ℕ → Type 0 =
          λ a b. Gives (insert_right_bytespan fresh sp source a b) (xs ++ range ys start end) in
        subst (F start) e (
          subst (λ a. F a (length (take start ys) + length (range ys start end))) s
            (insert_right_bytespan-Gives fresh sized source (take start ys) (range ys start end)
              (drop (end - start) (drop start ys)) held sp xs h))

  push_left_range-Agrees :
      (ys : List ℕ) (start end : ℕ) (sp : ByteSpan) (xs : List ℕ)
      → Holds sp xs
      → Agrees
          (insert_left_bytevector fresh sp ys start end)
          (spec_op (push_left_range ys start end) xs)
  unfolding insert_left_bytevector
  push_left_range-Agrees ys start end sp xs h = elim (Bool-cases (is_range ys start end)) [
    | inr b ↦ rw (insert_left_bytevector, b) tt
    | inl b ↦ elim (Bool-cases (ltb start end)) [
      | inl c ↦
          rw (insert_left_bytevector, b, c) (Gives-Agrees _ _ (range_left ys start end b sp xs h))
      | inr c ↦
          let empty : end - start ≡ 0 = ground arith in rw (insert_left_bytevector, b, c, empty) h
    ]
  ]

  push_right_range-Agrees :
      (ys : List ℕ) (start end : ℕ) (sp : ByteSpan) (xs : List ℕ)
      → Holds sp xs
      → Agrees
          (insert_right_bytevector fresh sp ys start end)
          (spec_op (push_right_range ys start end) xs)
  unfolding insert_right_bytevector
  push_right_range-Agrees ys start end sp xs h = elim (Bool-cases (start == end)) [
    | inl b ↦ rw (insert_right_bytevector, b) h
    | inr b ↦ elim (Bool-cases (is_range ys start end)) [
      | inl c ↦
          rw (insert_right_bytevector, b, c) (Gives-Agrees _ _ (range_right ys start end c sp xs h))
      | inr c ↦ rw (insert_right_bytevector, b, c, right_outside fresh sp ys start end c) tt
    ]
  ]

  pop_left-Agrees :
      (n : ℕ) (sp : ByteSpan) (xs : List ℕ)
      → Holds sp xs
      → Agrees (delete_left sp n) (spec_op (pop_left n) xs)
  pop_left-Agrees n sp xs h = elim (Bool-cases (leb n (length xs))) [
    | inl b ↦
        let size : length (take n xs) ≡ n = ground (arith, length-take n xs) in
        let cut =
          delete_left-Gives sp (take n xs) (drop n xs)
            (subst (Holds sp) (sym (take-append-drop n xs)) h) in
        rw b (Gives-Agrees _ _ (subst (λ m. Gives (delete_left sp m) (drop n xs)) size cut))
    | inr b ↦ rw (b, (delete-fails sp xs n h (ground arith)).0) tt
  ]

  pop_right-Agrees :
      (n : ℕ) (sp : ByteSpan) (xs : List ℕ)
      → Holds sp xs
      → Agrees (delete_right sp n) (spec_op (pop_right n) xs)
  pop_right-Agrees n sp xs h = elim (Bool-cases (leb n (length xs))) [
    | inl b ↦
        let rest = length xs - n in
        let size : length (drop rest xs) ≡ n = ground (arith, length-drop rest xs) in
        let cut =
          delete_right-Gives sp (take rest xs) (drop rest xs)
            (subst (Holds sp) (sym (take-append-drop rest xs)) h) in
        rw b (Gives-Agrees _ _ (subst (λ m. Gives (delete_right sp m) (take rest xs)) size cut))
    | inr b ↦ rw (b, (delete-fails sp xs n h (ground arith)).1) tt
  ]

  put-Agrees :
      (i u8 : ℕ) (sp : ByteSpan) (xs : List ℕ)
      → Holds sp xs
      → Agrees (bytespan_set sp i u8) (spec_op (put i u8) xs)
  put-Agrees i u8 sp xs h = elim (Bool-cases (ltb i (length xs) && leb u8 255)) [
    | inr b ↦ rw (b, bytespan_set-fails sp i u8 (rw (Holds-length sp xs h) b)) tt
    | inl b ↦
        let (front, back, e, size) = split_at i xs (ground arith) in
        rw b (
          Gives-Agrees _ _ (put_parts sp xs i u8 front back h e size (ground arith) (ground arith)))
  ]

  push_left-Agrees :
      (us : List ℕ) (sp : ByteSpan) (xs : List ℕ)
      → Holds sp xs
      → Agrees (insert_left_u8 fresh sp us) (spec_op (push_left us) xs)
  push_left-Agrees us sp xs h = elim (Bool-cases (all_bytes us)) [
    | inl b ↦ rw b (Gives-Agrees _ _ (insert_left_u8-Gives fresh sized sp xs us b h))
    | inr b ↦ rw (b, (insert_u8-fails fresh sized sp us b).0) tt
  ]

  push_right-Agrees :
      (us : List ℕ) (sp : ByteSpan) (xs : List ℕ)
      → Holds sp xs
      → Agrees (insert_right_u8 fresh sp us) (spec_op (push_right us) xs)
  push_right-Agrees us sp xs h = elim (Bool-cases (all_bytes us)) [
    | inl b ↦ rw b (Gives-Agrees _ _ (insert_right_u8-Gives fresh sized sp xs us b h))
    | inr b ↦ rw (b, (insert_u8-fails fresh sized sp us b).1) tt
  ]

  fill-Agrees :
      (start end : ℕ) (val : ℤ) (sp : ByteSpan) (xs : List ℕ)
      → Holds sp xs
      → Agrees (bytespan_fill sp start end val) (spec_op (fill start end val) xs)
  fill-Agrees start end val sp xs h =
      elim (Bool-cases (leb start end && leb end (length xs) && is_byte val)) [
        | inr b ↦ rw (b, bytespan_fill-fails sp xs start end val h b) tt
        | inl b ↦
            rw b (Gives-Agrees _ _ (fill_parts sp xs start end val h (ground arith) (ground arith)))
      ]

  run_op-Agrees :
      (op : Op) (sp : ByteSpan) (xs : List ℕ)
      → Holds sp xs
      → Agrees (run_op fresh op sp) (spec_op op xs)
  run_op-Agrees (push_left us) sp xs h = push_left-Agrees us sp xs h
  run_op-Agrees (push_right us) sp xs h = push_right-Agrees us sp xs h
  run_op-Agrees (push_left_range ys start end) sp xs h = push_left_range-Agrees ys start end sp xs h
  run_op-Agrees (push_right_range ys start end) sp xs h =
      push_right_range-Agrees ys start end sp xs h
  run_op-Agrees (pop_left n) sp xs h = pop_left-Agrees n sp xs h
  run_op-Agrees (pop_right n) sp xs h = pop_right-Agrees n sp xs h
  run_op-Agrees (put i u8) sp xs h = put-Agrees i u8 sp xs h
  run_op-Agrees (fill start end val) sp xs h = fill-Agrees start end val sp xs h
  run_op-Agrees clear sp xs h = clear-Holds sp

  pub run-Agrees :
      (ops : List Op) (sp : ByteSpan) (xs : List ℕ)
      → Holds sp xs
      → Agrees (run fresh ops sp) (spec_run ops xs)
  run-Agrees [] sp xs h = h
  run-Agrees (op ∷ ops) sp xs h =
      bind-Agrees (run_op fresh op sp) (spec_op op xs) (run fresh ops) (spec_run ops)
        (run_op-Agrees op sp xs h) (run-Agrees ops)

  -- The bytes of a span behind any sequence of operations on it, from a bytevector on: an
  -- operation fails, by an assertion or for a number that is to be stored and is no byte, exactly
  -- if an operation on sequences fails, and else the bytes are those that the operations on
  -- sequences give. Whether the span had space at the end, moved its bytes or was reallocated is
  -- not seen. It relies on a new bytevector having the length that was asked for.
  pub run-spec_run :
      (ops : List Op) (xs : List ℕ)
      → contents (run fresh ops (bytevector_to_bytespan xs)) ≡ spec_run ops xs
  run-spec_run ops xs =
      Agrees-contents _ _ (run-Agrees ops (bytevector_to_bytespan xs) xs (bytevector-Holds xs))
