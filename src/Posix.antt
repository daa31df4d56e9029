-- ===== src/Posix.antt =====
-- posix/posix.c: the process and its system calls. A call is data, and the kernel is the parameter
-- `kernel`, which answers each call and changes its own state. `trace` is no state of the program: it
-- lists the calls made, the newest first, so that theorems can speak of them.
pub mod Redirect
pub mod Spawn
pub mod Wait
pub mod Signals
pub mod JobControl
pub mod Fd
pub mod Calls
pub mod Keeps
pub mod Examples
use schemesh.Base.{
  ◌⊎◌, inl, inr, refl, ℕ, zero, suc, Bool, true, false, List, [], ◌∷◌, Option, none, some, ◌≡◌, ◌<◌,
}
use schemesh.Base.Int.{ℤ, pos, negsuc, neg}

pub data Handler : Type 0 where
  sig_dfl sig_ign sigcont_handler sigwinch_handler : Handler

-- The calls that the modelled functions make, with the arguments that vary.
pub data Call : Type 0 where
  close : ℤ → Call
  dup2 : ℤ → ℤ → Call
  -- fcntl(fd, F_SETFD, FD_CLOEXEC)
  set_cloexec : ℤ → Call
  -- open(path, flags, 0666)
  open_file : List ℕ → ℕ → Call
  write : ℤ → List ℕ → Call
  chdir : List ℕ → Call
  setpgid : ℤ → ℤ → Call
  getpgid : ℤ → Call
  tcgetpgrp : ℤ → Call
  tcsetpgrp : ℤ → ℤ → Call
  sigaction : ℕ → Handler → Call
  -- sigprocmask and pthread_sigmask: true blocks the signals, false unblocks them
  sigprocmask : Bool → List ℕ → Call
  pthread_sigmask : Bool → List ℕ → Call
  pthread_kill : ℕ → Call
  fflush : Call
  fork : Call
  -- execv and execvp: the second searches PATH
  execv : List (List ℕ) → Call
  execvp : List (List ℕ) → Call
  waitpid : ℤ → Bool → Call
  isatty : ℤ → Call
  getpid : Call
  kill : ℤ → ℕ → Call
  dup : ℤ → Call
  -- read of one byte, which is the word stored
  read_byte : ℤ → Call
  -- fcntl(fd, F_GETFL) and fcntl(fd, F_SETFL, flags)
  get_flags : ℤ → Call
  set_flags : ℤ → ℕ → Call
  lseek : ℤ → ℤ → ℕ → Call
  -- poll of one fd for events, with a timeout
  poll : ℤ → ℕ → ℤ → Call
  -- both return the first fd, and store the second
  pipe : Call
  socketpair : Call
  -- read of so many bytes, which the kernel keeps
  read : ℤ → ℕ → Call
  -- sysconf(_SC_OPEN_MAX)
  open_max : Call
  mkdir : List ℕ → ℤ → Call
  remove : List ℕ → Call
  rename : List ℕ → List ℕ → Call
  -- lstat where the flag is true, stat where not: the word stored is st_mode
  stat : Bool → List ℕ → Call
  geteuid : Call
  pause : Call

-- A call returns a value, and a word that it stored, or fails with an errno. A successful execv or
-- execvp does not return: the answer says that the new program runs.
pub data Answer : Type 0 where
  ok : ℕ → ℕ → Answer
  fail : ℕ → Answer

pub record Process (W : Type 0) : Type 0 where
  pub world : W
  pub errno : ℕ
  pub tty_fd : ℤ
  pub tty_pgid : ℤ
  pub environ : List (List ℕ)
  pub trace : List Call

abbrev pub Kernel : Type 0 → Type 0
Kernel W = Call → W → Answer × W

abbrev pub M : Type 0 → Type 0 → Type 0
M W A = Process W → A × Process W

infixl 5 ◌>>=◌ ◌>>◌
abbrev pub ◌>>=◌ : {W A B : Type 0} → M W A → (A → M W B) → M W B
◌>>=◌ m f p = let (a, q) = m p in f a q

abbrev pub ◌>>◌ : {W A B : Type 0} → M W A → M W B → M W B
m >> k = m >>= λ _. k

abbrev pub return : {W A : Type 0} → A → M W A
return a p = (a, p)

abbrev pub is_neg : ℤ → Bool
is_neg (pos n) = false
is_neg (negsuc n) = true

-- errno values of Linux
abbrev pub enoent : ℕ
enoent = 2

abbrev pub eintr : ℕ
eintr = 4

abbrev pub echild : ℕ
echild = 10

abbrev pub eagain : ℕ
eagain = 11

abbrev pub enomem : ℕ
enomem = 12

abbrev pub enotty : ℕ
enotty = 25

abbrev pub einval : ℕ
einval = 22

-- -errno
abbrev pub c_errno : {W : Type 0} → M W ℤ
c_errno p = (neg p.errno, p)

abbrev pub c_errno_set : {W : Type 0} → ℕ → M W ℤ
c_errno_set e p = (neg e, record p { errno = e })

module _ {W : Type 0} (kernel : Kernel W) where
  abbrev answered : Call → Process W → Answer × W → (ℤ × ℕ) × Process W
  answered c p (ok r word, w) = ((pos r, word), record p { world = w; trace = c ∷ p.trace })
  answered c p (fail e, w) = ((negsuc 0, 0), record p { world = w; errno = e; trace = c ∷ p.trace })

  -- A call, and the word that it stored; -1 and an errno where it fails.
  abbrev pub call_word : Call → M W (ℤ × ℕ)
  call_word c p = answered c p (kernel c p.world)

  abbrev pub call : Call → M W ℤ
  call c p = let (r, q) = call_word c p in (r.0, q)

-- A kernel fails with an errno above 0.
abbrev pub HasErrnos : {W : Type 0} → Kernel W → Type 0
HasErrnos {W} kernel = (c : Call) (w : W) (e : ℕ) → (kernel c w).0 ≡ fail e → 0 < e

pub Answer-cases :
    (a : Answer) → ((r : ℕ) × (word : ℕ) × (a ≡ ok r word)) ⊎ ((e : ℕ) × (a ≡ fail e))
Answer-cases (ok r word) = inl (r, word, refl)
Answer-cases (fail e) = inr (e, refl)
