-- ===== src/Posix/Signals/Handlers.antt =====
-- What the loops over the signals do to the handlers.
use schemesh.Base.{
  ℕ, suc, ◌≡◌, refl, Bool, true, false, List, [], ◌∷◌, arith, ◌==◌, ◌&&◌, not, ◌||◌, if◌then◌else◌,
  inl, inr,
}
use schemesh.Base.Int.{pos}
use schemesh.Posix.{
  Answer-cases, Kernel, Process, Call, Handler, sig_dfl, sig_ign, sigaction, HasErrnos, call,
}
use schemesh.Posix.Signals.{
  handle_loop, signals_init, signals_setdefault, signals_tohandle_rest, sigchld, sighup,
  without_sighup,
}

-- The calls for a list of signals, the last one first, in front of the older ones.
abbrev pub handled : Handler → List ℕ → List Call → List Call
handled handler [] trace = trace
handled handler (sig ∷ sigs) trace = handled handler sigs (sigaction sig handler ∷ trace)

module _ {W : Type 0} (kernel : Kernel W) where
  handle_loop-trace :
      (handler : Handler) (sigs : List ℕ) (p : Process W)
      → HasErrnos kernel
      → (handle_loop kernel handler sigs p).0 ≡ pos 0
      → (handle_loop kernel handler sigs p).1.trace ≡ handled handler sigs p.trace
  unfolding handle_loop
  handle_loop-trace handler [] p errnos e = refl
  handle_loop-trace handler (sig ∷ sigs) p errnos e =
      let c = sigaction sig handler in
      elim (Answer-cases (kernel c p.world).0) [
        | inl (r, word, q) ↦
            ground (arith, handle_loop-trace handler sigs (call kernel c p).1 errnos)
        | inr (n, q) ↦ let above = errnos c p.world n q in absurd (ground arith)
      ]

  -- Over a kernel whose errnos are above 0: a start with the result 0 has set SIGCHLD to its
  -- default and then ignored each other signal of the table, and has done nothing else.
  pub signals_init-trace :
      (p : Process W)
      → HasErrnos kernel
      → (signals_init kernel p).0 ≡ pos 0
      → (signals_init kernel p).1.trace
        ≡ handled sig_ign signals_tohandle_rest (sigaction sigchld sig_dfl ∷ p.trace)
  unfolding signals_init
  signals_init-trace p errnos e =
      let c = sigaction sigchld sig_dfl in
      elim (Answer-cases (kernel c p.world).0) [
        | inl (r, word, q) ↦
            ground
              (arith, handle_loop-trace sig_ign signals_tohandle_rest (call kernel c p).1 errnos)
        | inr (n, q) ↦ let above = errnos c p.world n q in absurd (ground arith)
      ]

-- How often a handler was set for a signal.
abbrev pub times_set : ℕ → List Call → ℕ
times_set sig [] = 0
times_set sig (sigaction n handler ∷ trace) =
    if n == sig then suc (times_set sig trace) else times_set sig trace
times_set sig (_ ∷ trace) = times_set sig trace

abbrev absent : ℕ → List ℕ → Bool
absent sig [] = true
absent sig (n ∷ ns) = not (n == sig) && absent sig ns

module _ {W : Type 0} (kernel : Kernel W) where
  handle_loop-absent :
      (sig : ℕ) (handler : Handler) (sigs : List ℕ) (p : Process W)
      → absent sig sigs ≡ true
      → times_set sig (handle_loop kernel handler sigs p).1.trace ≡ times_set sig p.trace
  unfolding handle_loop
  handle_loop-absent sig handler [] p h = refl
  handle_loop-absent sig handler (n ∷ ns) p h =
      ground (arith, handle_loop-absent sig handler ns (call kernel (sigaction n handler) p).1)

  -- Restoring the defaults, which a child does before it runs a command, keeps the handlers of
  -- SIGCHLD and of every signal outside the table, also where it fails.
  pub signals_setdefault_keeps :
      (sig : ℕ) (p : Process W)
      → absent sig signals_tohandle_rest ≡ true
      → times_set sig (signals_setdefault kernel p).1.trace ≡ times_set sig p.trace
  unfolding signals_setdefault
  signals_setdefault_keeps sig p h = handle_loop-absent sig sig_dfl signals_tohandle_rest p h

abbrev pub contains : ℕ → List ℕ → Bool
contains sig [] = false
contains sig (n ∷ ns) = n == sig || contains sig ns

-- The set of signals that are unblocked at the start holds every known signal but SIGHUP.
pub without_sighup_lem :
    (sig : ℕ) (sigs : List ℕ)
    → contains sig (without_sighup sigs) ≡ (contains sig sigs && not (sig == sighup))
unfolding without_sighup
without_sighup_lem sig [] = refl
without_sighup_lem sig (n ∷ ns) = ground (arith, without_sighup_lem sig ns)
