-- ===== src/JobStatus/Names.antt =====
-- posix/signal.ss: the two tables of signal names. A hash table is an association list.
use schemesh.Base.{
  ℕ, ◌≡◌, refl, Bool, true, false, ◌&&◌, Option, none, some, List, [], ◌∷◌, ◌==◌, if◌then◌else◌,
  arith, Bool-cases, inl, inr, ap, Option-cases, ltb, ◌<◌, ◌∙◌,
}
use schemesh.Base.Int.{pos}
use schemesh.Base.Text.{codes}
use schemesh.Scheme.{Ptr, pair, fixnum, symbol}
use schemesh.Posix.Signals.Names.{signals_list}

abbrev pub same_name : List ℕ → List ℕ → Bool
same_name [] [] = true
same_name (a ∷ xs) (b ∷ ys) = a == b && same_name xs ys
same_name _ _ = false

pub same_name-eq : (a b : List ℕ) → same_name a b ≡ true → a ≡ b
same_name-eq [] [] h = refl
same_name-eq [] (b ∷ ys) h = absurd (ground arith)
same_name-eq (a ∷ xs) [] h = absurd (ground arith)
same_name-eq (a ∷ xs) (b ∷ ys) h = ground (arith, same_name-eq xs ys)

abbrev pub Table : Type 0
Table = List (ℕ × List ℕ)

-- `hashtable-set!` with the number as key, and with the name.
unfoldable pub set_name : ℕ → List ℕ → Table → Table
set_name number name [] = (number, name) ∷ []
set_name number name ((n, s) ∷ table) =
    if n == number then (number, name) ∷ table else (n, s) ∷ set_name number name table

unfoldable pub set_number : List ℕ → ℕ → Table → Table
set_number name number [] = (number, name) ∷ []
set_number name number ((n, s) ∷ table) =
    if same_name s name then (number, name) ∷ table else (n, s) ∷ set_number name number table

-- `alist->eq-hashtable` on the pairs of `c_signals_list`; a later pair replaces an earlier one.
unfoldable pub number_table : Ptr → Table → Table
unfolding set_name
number_table (pair (pair (fixnum (pos number)) (symbol name)) rest) table =
    number_table rest (set_name number name table)
number_table _ table = table

-- `hashtable-transpose`
unfoldable pub transposed : Table → Table → Table
unfolding set_number
transposed [] table = table
transposed ((number, name) ∷ rest) table = transposed rest (set_number name number table)

unfoldable pub number_to_name : Table → ℕ → Option (List ℕ)
number_to_name [] number = none
number_to_name ((n, s) ∷ table) number = if n == number then some s else number_to_name table number

unfoldable pub name_to_number : Table → List ℕ → Option ℕ
name_to_number [] name = none
name_to_number ((n, s) ∷ table) name =
    if same_name s name then some n else name_to_number table name

-- The tables `signal-table-number->name` and `signal-table-name->number`.
unfoldable pub names_by_number : Table
unfolding number_table signals_list
names_by_number = number_table signals_list []

unfoldable pub numbers_by_name : Table
unfolding transposed names_by_number
numbers_by_name = transposed names_by_number []

unfoldable pub signal_name : ℕ → Option (List ℕ)
unfolding number_to_name names_by_number
signal_name number = number_to_name names_by_number number

unfoldable pub signal_number : List ℕ → Option ℕ
unfolding name_to_number numbers_by_name
signal_number name = name_to_number numbers_by_name name

-- A test that all rows of a table pass is passed by a name that has a number in it.
abbrev pub all_rows : (ℕ → List ℕ → Bool) → Table → Bool
all_rows test [] = true
all_rows test ((n, s) ∷ table) = test n s && all_rows test table

name_to_number-passed :
    (test : ℕ → List ℕ → Bool) (table : Table) (name : List ℕ) (n : ℕ)
    → all_rows test table ≡ true
    → name_to_number table name ≡ some n
    → test n name ≡ true
unfolding name_to_number
name_to_number-passed test [] name n h e = absurd (ground arith)
name_to_number-passed test ((m, s) ∷ table) name n h e = elim (Bool-cases (same_name s name)) [
  | inl b ↦
      let here : m ≡ n = ground arith in
      let row : test m s ≡ true = ground arith in rw (← here, ← same_name-eq s name b) row
  | inr b ↦ name_to_number-passed test table name n (ground arith) (ground arith)
]

-- A number of a process's signal, which has the name.
abbrev pub is_row : ℕ → List ℕ → Bool
is_row n name =
    ltb 0 n && ltb n 127 && elim (signal_name n) [ none ↦ false | some s ↦ same_name s name ]

rows : all_rows is_row numbers_by_name ≡ true
unfolding numbers_by_name signal_name
rows = refl

row_named :
    (n : ℕ) (name : List ℕ)
    → is_row n name ≡ true
    → (0 < n) × (n < 127) × (signal_name n ≡ some name)
row_named n name row = elim (Option-cases (signal_name n)) [
  | inl f ↦ absurd (ground arith)
  | inr (s, f) ↦
      let same : same_name s name ≡ true = ground arith in
      (ground arith, ground arith, f ∙ ap some (same_name-eq s name same))
]

-- The number that a name has is a signal's, and it has that name.
pub signal_number-signal_name :
    (name : List ℕ) (n : ℕ)
    → signal_number name ≡ some n
    → (0 < n) × (n < 127) × (signal_name n ≡ some name)
unfolding signal_number
signal_number-signal_name name n e =
    row_named n name (name_to_number-passed is_row numbers_by_name name n rows e)

sigint_number : signal_number (codes "sigint") ≡ some 2
unfolding signal_number
sigint_number = refl

-- SIGIO and SIGPOLL share the number 29, and only one of the two names is kept.
sigpoll_lost : (signal_number (codes "sigpoll") ≡ none) × (signal_name 29 ≡ some (codes "sigio"))
unfolding signal_number signal_name
sigpoll_lost = (refl, refl)
