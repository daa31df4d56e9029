-- ===== src/Paths/Names.antt =====
-- The name of the host, also where the buffer holds no final 0.
use schemesh.Base.{
  ℕ, ◌+◌, ◌≡◌, ◌≤◌, refl, ap, Bool, ◌&&◌, leb, Option, none, some, List, [], ◌∷◌, length, take,
  ◌==◌, arith, inl, inr, Bool-cases, Option-cases,
}
use schemesh.Base.Int.{ℤ, pos, negsuc}
use schemesh.Bytevector.{memchr}
use schemesh.Strings.{until_zero, sstring_of, sstring_utf8b}
use schemesh.Tty.{Attempt, done}
use schemesh.Paths.{made, get_hostname_buf, get_hostname, stack_host_name_max}

-- The bytes in front of the 0 that `memchr` finds, or all of them.
abbrev end_of : List ℕ → Option ℕ → ℕ
end_of buf none = length buf
end_of buf (some end) = end

take-memchr : (buf : List ℕ) → take (end_of buf (memchr buf 0 (length buf))) buf ≡ until_zero buf
unfolding memchr until_zero
take-memchr [] = refl
take-memchr (b ∷ buf) = elim (Bool-cases (b == 0)) [
  | inl z ↦ rw z refl
  | inr z ↦ rw z (elim (Option-cases (memchr buf 0 (length buf))) [
    | inl e ↦ rw e (ap (λ x. b ∷ x) (rw e at (take-memchr buf)))
    | inr (i, e) ↦ rw e (ap (λ x. b ∷ x) (rw e at (take-memchr buf)))
  ])
]

sstring_prefix :
    (smake_string : ℤ → Option (List ℕ)) (buf : List ℕ) (n : ℕ)
    → take n buf ≡ until_zero buf
    → sstring_utf8b smake_string buf (some n) ≡ sstring_utf8b smake_string buf none
unfolding sstring_utf8b
sstring_prefix smake_string buf n h = ap (sstring_of smake_string) h

module _ (malloc : ℕ → Bool) (smake_string : ℤ → Option (List ℕ))
    (gethostname : ℕ → Attempt (List ℕ)) where
  hostname_buf_lem :
      (buf : List ℕ)
      → gethostname (length buf) ≡ done buf
      → get_hostname_buf malloc smake_string gethostname (length buf)
        ≡ made (sstring_utf8b smake_string buf none)
  unfolding get_hostname_buf
  hostname_buf_lem buf h =
      let t = take-memchr buf in
      elim (Option-cases (memchr buf 0 (length buf))) [
        | inl e ↦
            rw (get_hostname_buf, h, e)
              (ap made (sstring_prefix smake_string buf (length buf) (rw e at t)))
        | inr (i, e) ↦
            rw (get_hostname_buf, h, e) (ap made (sstring_prefix smake_string buf i (rw e at t)))
      ]

  abbrev pub Fills : (ℕ → List ℕ) → Type 0
  Fills buf_of = (n : ℕ) → (gethostname n ≡ done (buf_of n)) × (length (buf_of n) ≡ n)

  at_size :
      (buf_of : ℕ → List ℕ)
      → Fills buf_of
      → (n : ℕ)
      → get_hostname_buf malloc smake_string gethostname n
        ≡ made (sstring_utf8b smake_string (buf_of n) none)
  at_size buf_of fills n = let (g, k) = fills n in rw k at (hostname_buf_lem (buf_of n) (rw k g))

  -- If `gethostname` fills its buffer, of whatever size, then the host's name is the string of the
  -- bytes in front of the first 0 of a buffer of 65 bytes or more, or of the whole buffer where it
  -- holds no 0.
  pub get_hostname_lem :
      (sysconf : ℤ) (buf_of : ℕ → List ℕ)
      → Fills buf_of
      → (n : ℕ) × (stack_host_name_max ≤ n)
        × (get_hostname malloc smake_string gethostname sysconf
            ≡ made (sstring_utf8b smake_string (buf_of n) none))
  unfolding get_hostname
  get_hostname_lem (negsuc n) buf_of fills = (65, omega arith, at_size buf_of fills 65)
  get_hostname_lem (pos len) buf_of fills =
      elim (Bool-cases (leb stack_host_name_max len && malloc (len + 1))) [
        | inl b ↦ (len + 1, ground arith, rw (get_hostname, b) (at_size buf_of fills (len + 1)))
        | inr b ↦ (65, omega arith, rw (get_hostname, b) (at_size buf_of fills 65))
      ]
