-- ===== src/Posix/Signals/Names.antt =====
-- posix/signal.h: the names of the signals.
use schemesh.Base.{ℕ, suc, ◌≡◌, refl, List, [], ◌∷◌, map}
use schemesh.Base.Int.{pos}
use schemesh.Base.Text.{codes}
use schemesh.Scheme.{Ptr, snil, fixnum, symbol, pair}
use schemesh.Posix.Signals.{signals_known}

-- The names, in the order of the table.
abbrev pub signal_names : List (List ℕ)
signal_names = map codes (
    "sigabrt" ∷ "sigalrm" ∷ "sigbus" ∷ "sigchld" ∷ "sigcont" ∷ "sigfpe" ∷ "sighup" ∷ "sigill"
    ∷ "sigint" ∷ "sigkill" ∷ "sigpipe" ∷ "sigquit" ∷ "sigsegv" ∷ "sigstop" ∷ "sigterm" ∷ "sigtstp"
    ∷ "sigttin" ∷ "sigttou" ∷ "sigusr1" ∷ "sigusr2" ∷ "sigwinch" ∷ "sigio" ∷ "sigpoll" ∷ "sigprof"
    ∷ "sigpwr" ∷ "sigstkflt" ∷ "sigsys" ∷ "sigtrap" ∷ "sigurg" ∷ "sigvtalrm" ∷ "sigxcpu" ∷ "sigxfsz"
    ∷ [])

-- One pair for each signal, the last one of the table first.
unfoldable pub names_loop : List ℕ → List (List ℕ) → Ptr → Ptr
names_loop (sig ∷ sigs) (name ∷ names) ret =
    names_loop sigs names (pair (pair (fixnum (pos sig)) (symbol name)) ret)
names_loop _ _ ret = ret

unfoldable pub signals_list : Ptr
unfolding names_loop
signals_list = names_loop signals_known signal_names snil

-- The length of a list, as far as it is one.
abbrev pub count_pairs : Ptr → ℕ
count_pairs (pair a b) = suc (count_pairs b)
count_pairs _ = 0

-- Each of the 32 signals of the table has its name.
all_named : count_pairs signals_list ≡ 32
unfolding signals_list
all_named = refl
