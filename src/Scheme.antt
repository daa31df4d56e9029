-- ===== src/Scheme.antt =====
-- The Chez Scheme values that the C code takes and returns as `ptr`, as far as it looks into them.
-- A string is a list of codepoints and a bytevector a list of numbers below 256; a function that
-- mutates one returns its new contents.
use schemesh.Base.{ℕ, Bool, true, false, List}
use schemesh.Base.Int.{ℤ}

mutual
  pub data Ptr : Type 0 where
    sfalse : Ptr
    strue : Ptr
    snil : Ptr
    fixnum : ℤ → Ptr
    char : ℕ → Ptr
    string : List ℕ → Ptr
    bytevector : List ℕ → Ptr
    symbol : List ℕ → Ptr
    pair : Ptr → Ptr → Ptr
    vector : Ptrs → Ptr

  pub data Ptrs : Type 0 where
    nil : Ptrs
    cons : Ptr → Ptrs → Ptrs

-- `p != Sfalse`
abbrev pub is_truish : Ptr → Bool
is_truish sfalse = false
is_truish _ = true
