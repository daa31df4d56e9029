-- ===== src/Posix/Fd/Io.antt =====
-- What the functions on file descriptors do with the fds, the bytes and the interruptions.
use native.Mathlib.Nat.{suc-add}
use schemesh.Base.{
  ℕ, zero, suc, ◌≡◌, ◌≢◌, refl, ap, ◌+◌, ◌-◌, ◌≤◌, ◌<◌, Bool, true, false, some, List, [], ◌∷◌, ◌⊎◌,
  inl, inr, ◌==◌, arith, length, take, drop, get_elem?, length-take, length-drop, get_elem?-take,
  get_elem?-drop, ◌∙◌,
}
use schemesh.Base.Int.{ℤ, pos, neg}
use schemesh.Scheme.{Ptr, fixnum, bytevector, pair}
use schemesh.Posix.{
  Answer-cases, Kernel, Process, Call, Answer, ok, fail, close, write, pipe, lseek, call, eintr,
}
use schemesh.Posix.Fd.{
  fd_close_list, close_loop, close_elem, fd_seek, retry, is_success, fd_write, range_of,
}
use schemesh.Posix.Fd.Pipes.{open_pipe_fds, open_fds, flag_fds, flag_both, pair_or_close}

-- The fixnums of a list, as calls of close, the last one first, in front of older calls.
abbrev pub closes : Ptr → List Call → List Call
closes (pair (fixnum fd) rest) trace = closes rest (close fd ∷ trace)
closes (pair _ rest) trace = closes rest trace
closes _ trace = trace

abbrev pub is_eintr : Answer → Bool
is_eintr (ok r word) = false
is_eintr (fail e) = e == eintr

module _ {W : Type 0} (kernel : Kernel W) where
  close_elem-trace :
      (fd ret : ℤ) (p : Process W)
      → (close_elem kernel (fixnum fd) ret p).1.trace ≡ close fd ∷ p.trace
  unfolding close_elem
  close_elem-trace fd ret p = ground arith

  close_loop-trace :
      (l : Ptr) (ret : ℤ) (p : Process W) → (close_loop kernel l ret p).1.trace ≡ closes l p.trace
  unfolding close_loop
  close_loop-trace (pair (fixnum fd) rest) ret p =
      let r = close_elem kernel (fixnum fd) ret p in
      close_loop-trace rest r.0 r.1 ∙ ap (λ t. closes rest t) (close_elem-trace fd ret p)
  close_loop-trace (pair elem rest) ret p = close_loop-trace rest _ p
  close_loop-trace l ret p = refl

  -- Every fixnum of the list is closed, in the order of the list, also behind a close that failed, an
  -- element that is no fixnum and an improper end; no other call is made.
  pub fd_close_list-trace :
      (l : Ptr) (p : Process W) → (fd_close_list kernel l p).1.trace ≡ closes l p.trace
  unfolding fd_close_list
  fd_close_list-trace l p = close_loop-trace l (pos 0) p

  -- The call is interrupted n times, and then not.
  abbrev pub Interrupts : ℕ → Call → Process W → Type 0
  Interrupts zero c p = is_eintr (kernel c p.world).0 ≡ false
  Interrupts (suc n) c p =
      (is_eintr (kernel c p.world).0 ≡ true) × Interrupts n c (call kernel c p).1

  retry_last :
      (calls : ℕ) (c : Call) (p : Process W)
      → Interrupts 0 c p
      → (r : ℤ) × ((retry kernel is_success (suc calls) c p).0 ≡ some r) × (r ≢ neg eintr)
  unfolding retry
  retry_last calls c p h = elim (Answer-cases (kernel c p.world).0) [
    | inl (n, word, q) ↦ (pos n, ground arith, ground arith)
    | inr (e, q) ↦ (neg e, ground arith, ground arith)
  ]

  retry_again :
      (calls : ℕ) (c : Call) (p : Process W)
      → is_eintr (kernel c p.world).0 ≡ true
      → retry kernel is_success (suc calls) c p
        ≡ retry kernel is_success calls c (call kernel c p).1
  unfolding retry
  retry_again calls c p h = elim (Answer-cases (kernel c p.world).0) [
    | inl (n, word, q) ↦ absurd (ground arith)
    | inr (e, q) ↦ ground arith
  ]

  retry_ends :
      (n extra : ℕ) (c : Call) (p : Process W)
      → Interrupts n c p
      → (r : ℤ) × ((retry kernel is_success (suc n + extra) c p).0 ≡ some r) × (r ≢ neg eintr)
  retry_ends zero extra c p h = rw suc-add (retry_last (0 + extra) c p h)
  retry_ends (suc n) extra c p (h, k) =
      rw (suc-add, retry_again (suc n + extra) c p h) (retry_ends n extra c (call kernel c p).1 k)

  -- Where lseek from the current position is interrupted n times and then not, fuel for n + 1
  -- calls or more gives a result, which is not -EINTR.
  pub fd_seek_ends :
      (n extra : ℕ) (fd offset : ℤ) (p : Process W)
      → Interrupts n (lseek fd offset 1) p
      → (r : ℤ) × ((fd_seek kernel (suc n + extra) fd offset (pos 1) p).0 ≡ some r)
        × (r ≢ neg eintr)
  unfolding fd_seek
  fd_seek_ends n extra fd offset p h = retry_ends n extra (lseek fd offset 1) p h

  pair_or_close_lem :
      (err fd1 fd2 : ℤ) (p : Process W)
      → let r = pair_or_close kernel err fd1 fd2 p in
        (r.0 ≡ pair (fixnum fd1) (fixnum fd2)) ⊎ (take 2 r.1.trace ≡ close fd2 ∷ close fd1 ∷ [])
  unfolding pair_or_close
  pair_or_close_lem err fd1 fd2 p = ground arith

  flag_fds_closed :
      (a b : Ptr) (fd1 fd2 : ℤ) (p : Process W)
      → let r = flag_fds kernel a b fd1 fd2 p in
        (r.0 ≡ pair (fixnum fd1) (fixnum fd2)) ⊎ (take 2 r.1.trace ≡ close fd2 ∷ close fd1 ∷ [])
  unfolding flag_fds
  flag_fds_closed a b fd1 fd2 p =
      let r = flag_both kernel a b fd1 fd2 p in pair_or_close_lem r.0 fd1 fd2 r.1

  open_fds_opened :
      (a b : Ptr) (c : Call) (p : Process W) (fd1 fd2 : ℕ)
      → (kernel c p.world).0 ≡ ok fd1 fd2
      → open_fds kernel c a b p ≡ flag_fds kernel a b (pos fd1) (pos fd2) (call kernel c p).1
  unfolding open_fds
  open_fds_opened a b c p fd1 fd2 h = ground arith

  -- If the kernel opened a pipe, both of its fds are returned, or the last two calls close them.
  pub open_pipe_fds_closed :
      (a b : Ptr) (p : Process W) (fd1 fd2 : ℕ)
      → (kernel pipe p.world).0 ≡ ok fd1 fd2
      → let r = open_pipe_fds kernel a b p in
        (r.0 ≡ pair (fixnum (pos fd1)) (fixnum (pos fd2)))
        ⊎ (take 2 r.1.trace ≡ close (pos fd2) ∷ close (pos fd1) ∷ [])
  unfolding open_pipe_fds
  open_pipe_fds_closed a b p fd1 fd2 h =
      rw (open_fds_opened a b pipe p fd1 fd2 h)
        (flag_fds_closed a b (pos fd1) (pos fd2) (call kernel pipe p).1)

  -- A write of a range within a bytevector is one call of write, with as many bytes as the range
  -- has, and those that stand in it.
  pub fd_write_range :
      (fd : ℤ) (bytes : List ℕ) (start end : ℕ) (p : Process W)
      → start ≤ end
      → end ≤ length bytes
      → let out = range_of bytes (pos start) (pos end) in
        ((fd_write kernel fd (bytevector bytes) (pos start) (pos end) p).1.trace
          ≡ write fd out ∷ p.trace)
        × (length out ≡ end - start)
        × ((i : ℕ) → i < end - start → get_elem? out i ≡ get_elem? bytes (start + i))
  unfolding fd_write
  fd_write_range fd bytes start end p h k = (
    ground arith,
    omega (arith, length-take (end - start) (drop start bytes), length-drop start bytes),
    λ i lt. get_elem?-take (end - start) (drop start bytes) i lt ∙ get_elem?-drop start bytes i,
  )
