-- ===== src/Comm/Buffers/Reading.antt =====
-- The reading loop of `recv_frame` (src/libs/communication.cpp).
use cpp_chat_channel.Base.{
  ℕ, zero, suc, ◌≤◌, ◌<◌, ◌≡◌, refl, sym, ap, ◌∙◌, ◌⊎◌, inl, inr, [], ◌++◌, arith, nat_eq, int_eq,
  Bytes, length, length-append, append_assoc, append-nil,
}
use cpp_chat_channel.Effects.{Exn, Outcome, ok, throw, hangs, recv_failed, disconnected}
use cpp_chat_channel.Os.{Fd, Os, Received, received, would_block, recv_error}
use cpp_chat_channel.Os.Laws.{RecvLaws}
use cpp_chat_channel.Comm.Buffers.{recv_loop}

-- The reads that fill the whole array, one after the other, with all that they bring.
pub data FullReads (os : Os) (fd : Fd) : os.Kernel → Bytes → os.Kernel → Type 0 where
  no_read : {k : os.Kernel} → FullReads os fd k [] k
  full_read :
      {k k' : os.Kernel} {c : Bytes} (b : Bytes)
      → (os.recv fd 4096 k).0 ≡ received b
      → 4096 ≤ length b
      → FullReads os fd (os.recv fd 4096 k).1 c k'
      → FullReads os fd k (b ++ c) k'

-- A read after which the loop leaves off: there was nothing more to read, or less than the array holds.
pub data LastRead (os : Os) (fd : Fd) (k : os.Kernel) : Bytes → Type 0 where
  blocked : (os.recv fd 4096 k).0 ≡ would_block → LastRead os fd k []
  short_read :
      {b : Bytes}
      → (os.recv fd 4096 k).0 ≡ received b
      → 0 < length b
      → length b < 4096
      → LastRead os fd k b

-- A read that makes `recv_frame` throw.
pub data FailedRead (os : Os) (fd : Fd) (k : os.Kernel) : Exn → Type 0 where
  refused : (os.recv fd 4096 k).0 ≡ recv_error → FailedRead os fd k recv_failed
  ended :
      {b : Bytes}
      → (os.recv fd 4096 k).0 ≡ received b
      → length b ≡ 0
      → FailedRead os fd k disconnected

-- How the reading loop ends: what it appended to `acc` is what its reads brought.
unfoldable pub Drained :
    (os : Os) (laws : RecvLaws os)
    → Fd
    → Bytes
    → os.Kernel
    → Outcome (Unit {0}) × (Bytes × os.Kernel)
    → Type 0
Drained os laws fd acc k (ok _, (acc', k')) =
    (b : Bytes) × (c : Bytes) × (k0 : os.Kernel) × FullReads os fd k b k0
    × LastRead os fd k0 c
    × (k' ≡ (os.recv fd 4096 k0).1)
    × (acc' ≡ acc ++ (b ++ c))
    × (laws.inbox k fd ≡ (b ++ c) ++ laws.inbox k' fd)
Drained os laws fd acc k (throw e, (acc', k')) =
    (b : Bytes) × (k0 : os.Kernel) × FullReads os fd k b k0
    × FailedRead os fd k0 e
    × (k' ≡ (os.recv fd 4096 k0).1)
    × (acc' ≡ acc ++ b)
    × (laws.inbox k fd ≡ b ++ laws.inbox k0 fd)
Drained os laws fd acc k (hangs, (acc', k')) = ⊥

Received-cases :
    (r : Received) → (r ≡ would_block) ⊎ (r ≡ recv_error) ⊎ ((b : Bytes) × (r ≡ received b))
Received-cases would_block = inl refl
Received-cases recv_error = inr (inl refl)
Received-cases (received b) = inr (inr (b, refl))

Size-cases : (n : ℕ) → (n ≡ 0) ⊎ ((0 < n) × (n < 4096)) ⊎ (4096 ≤ n)
Size-cases n = grind arith

-- One lemma for each outcome of a read.
module _ (os : Os) (f : ℕ) (fd : Fd) (acc : Bytes) (k : os.Kernel) where
  recv_loop_blocks :
      (os.recv fd 4096 k).0 ≡ would_block
      → recv_loop os (suc f) fd (acc, k) ≡ (ok tt, (acc, (os.recv fd 4096 k).1))
  unfolding recv_loop
  recv_loop_blocks e = rw (e, recv_loop)

  recv_loop_errs :
      (os.recv fd 4096 k).0 ≡ recv_error
      → recv_loop os (suc f) fd (acc, k) ≡ (throw recv_failed, (acc, (os.recv fd 4096 k).1))
  unfolding recv_loop
  recv_loop_errs e = rw (e, recv_loop)

  recv_loop_ends :
      (b : Bytes)
      → (os.recv fd 4096 k).0 ≡ received b
      → length b ≡ 0
      → recv_loop os (suc f) fd (acc, k) ≡ (throw disconnected, (acc, (os.recv fd 4096 k).1))
  unfolding recv_loop
  recv_loop_ends b e h = rw (e, recv_loop) (ground arith)

  recv_loop_stops :
      (b : Bytes)
      → (os.recv fd 4096 k).0 ≡ received b
      → 0 < length b
      → length b < 4096
      → recv_loop os (suc f) fd (acc, k) ≡ (ok tt, (acc ++ b, (os.recv fd 4096 k).1))
  unfolding recv_loop
  recv_loop_stops b e h l = rw (e, recv_loop) (ground arith)

  recv_loop_more :
      (b : Bytes)
      → (os.recv fd 4096 k).0 ≡ received b
      → 4096 ≤ length b
      → recv_loop os (suc f) fd (acc, k) ≡ recv_loop os f fd (acc ++ b, (os.recv fd 4096 k).1)
  unfolding recv_loop
  recv_loop_more b e l = rw (e, recv_loop) (ground arith)

module _ (os : Os) (laws : RecvLaws os) (fd : Fd) where
  -- A full read in front of the others.
  Drained-more :
      (acc b : Bytes) (k : os.Kernel) (r : Outcome (Unit {0}) × (Bytes × os.Kernel))
      → (os.recv fd 4096 k).0 ≡ received b
      → 4096 ≤ length b
      → Drained os laws fd (acc ++ b) (os.recv fd 4096 k).1 r
      → Drained os laws fd acc k r
  unfolding Drained
  Drained-more acc b k (ok _, (acc', k'')) e l (c, d, k0, full, last, after, p, q) = (
    b ++ c,
    d,
    k0,
    full_read b e l full,
    last,
    after,
    p ∙ append_assoc acc b (c ++ d) ∙ ap (◌++◌ acc) (sym (append_assoc b c d)),
    laws.recv_takes fd 4096 k b e
        ∙ ap (◌++◌ b) q
        ∙ sym (append_assoc b (c ++ d) (laws.inbox k'' fd))
        ∙ ap (λ x. x ++ laws.inbox k'' fd) (sym (append_assoc b c d)),
  )
  Drained-more acc b k (throw x, (acc', k'')) e l (c, k0, full, last, after, p, q) = (
    b ++ c,
    k0,
    full_read b e l full,
    last,
    after,
    p ∙ append_assoc acc b c,
    laws.recv_takes fd 4096 k b e ∙ ap (◌++◌ b) q ∙ sym (append_assoc b c (laws.inbox k0 fd)),
  )
  Drained-more acc b k (hangs, (acc', k'')) e l d = d

  pub recv_loop-Drained :
      (f : ℕ) (acc : Bytes) (k : os.Kernel)
      → length (laws.inbox k fd) < f
      → Drained os laws fd acc k (recv_loop os f fd (acc, k))
  unfolding Drained
  recv_loop-Drained zero acc k h = absurd (omega arith)
  recv_loop-Drained (suc f) acc k h = elim (Received-cases (os.recv fd 4096 k).0) [
    | inl e ↦ rw (recv_loop_blocks os f fd acc k e) (
      [],
      [],
      k,
      no_read,
      blocked e,
      refl,
      sym (append-nil acc),
      sym (laws.recv_blocks fd 4096 k e),
    )
    | inr (inl e) ↦
        rw (recv_loop_errs os f fd acc k e)
          ([], k, no_read, refused e, refl, sym (append-nil acc), refl)
    | inr (inr (b, e)) ↦
        let took = laws.recv_takes fd 4096 k b e in
        elim (Size-cases (length b)) [
          | inl none_left ↦
              rw (recv_loop_ends os f fd acc k b e none_left)
                ([], k, no_read, ended e none_left, refl, sym (append-nil acc), refl)
          | inr (inl (some_came, short)) ↦
              rw (recv_loop_stops os f fd acc k b e some_came short)
                ([], b, k, no_read, short_read e some_came short, refl, refl, took)
          | inr (inr full) ↦ rw (recv_loop_more os f fd acc k b e full) (
              Drained-more acc b k _ e full (
                recv_loop-Drained f (acc ++ b) (os.recv fd 4096 k).1 (
                  omega (
                    arith,
                    ap length took,
                    length-append b (laws.inbox (os.recv fd 4096 k).1 fd),
                  ))))
        ]
  ]
