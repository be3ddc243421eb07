-- ===== src/Comm/Buffers/Receive.antt =====
-- What `recv_frame` reads and what it leaves in the buffers (src/libs/communication.cpp).
use cpp_chat_channel.Base.{
  ℕ, ◌<◌, ◌≡◌, ◌≢◌, refl, sym, ap, ◌∙◌, inl, inr, List, ◌++◌, arith, ==_iff, nat_eq, int_eq, Bytes,
  length,
}
use cpp_chat_channel.Base.Assoc.{lookup-insert}
use cpp_chat_channel.Effects.{Exn, Outcome, ok, throw, hangs, bind_outcome, on_first}
use cpp_chat_channel.Os.{Fd, Os}
use cpp_chat_channel.Os.Laws.{RecvLaws}
use cpp_chat_channel.Comm.Stream.{parse_frames}
use cpp_chat_channel.Comm.Stream.Fuel.{parse_frames-Ended}
use cpp_chat_channel.Comm.Buffers.{
  Communication, buffer, set_buffer, recv_loop, recv_body, recv_frame,
}
use cpp_chat_channel.Comm.Buffers.Reading.{
  FullReads, LastRead, FailedRead, Drained, recv_loop-Drained,
}

-- How `recv_frame` ends. It reads until a read blocks or brings less than the array holds, returns
-- the frames of the bytes that waited in the connection's buffer with the bytes of these reads, and
-- keeps the rest; or a read fails, and the bytes of the reads before it stay in the buffer; or a
-- header throws.
pub data Delivered (os : Os) (laws : RecvLaws os) (fd : Fd) (c : Communication) (k : os.Kernel)
    : Outcome (List Bytes) × (Communication × os.Kernel) → Type 0 where
  delivered :
      (frames : List Bytes) (b last rest : Bytes) (c' : Communication) (k0 k' : os.Kernel)
      → FullReads os fd k b k0
      → LastRead os fd k0 last
      → k' ≡ (os.recv fd 4096 k0).1
      → laws.inbox k fd ≡ (b ++ last) ++ laws.inbox k' fd
      → parse_frames (buffer c fd ++ (b ++ last)) ≡ (ok frames, rest)
      → buffer c' fd ≡ rest
      → Delivered os laws fd c k (ok frames, (c', k'))
  unread :
      (e : Exn) (b : Bytes) (c' : Communication) (k0 k' : os.Kernel)
      → FullReads os fd k b k0
      → FailedRead os fd k0 e
      → k' ≡ (os.recv fd 4096 k0).1
      → laws.inbox k fd ≡ b ++ laws.inbox k0 fd
      → buffer c' fd ≡ buffer c fd ++ b
      → Delivered os laws fd c k (throw e, (c', k'))
  unparsed :
      (e : Exn) (b last rest : Bytes) (c' : Communication) (k0 k' : os.Kernel)
      → FullReads os fd k b k0
      → LastRead os fd k0 last
      → k' ≡ (os.recv fd 4096 k0).1
      → laws.inbox k fd ≡ (b ++ last) ++ laws.inbox k' fd
      → parse_frames (buffer c fd ++ (b ++ last)) ≡ (throw e, rest)
      → buffer c' fd ≡ rest
      → Delivered os laws fd c k (throw e, (c', k'))

buffer-set_buffer :
    (c : Communication) (fd : Fd) (acc : Bytes) → buffer (set_buffer c fd acc) fd ≡ acc
unfolding buffer set_buffer
buffer-set_buffer c fd acc = ground (arith, lookup-insert fd fd acc c.rbuf, ==_iff fd fd)

-- A write to the buffer of one connection leaves the buffers of the others.
pub buffer-set_buffer_ne :
    (c : Communication) (fd other : Fd) (acc : Bytes)
    → fd ≢ other
    → buffer (set_buffer c fd acc) other ≡ buffer c other
unfolding buffer set_buffer
buffer-set_buffer_ne c fd other acc h =
    ground (arith, lookup-insert fd other acc c.rbuf, ==_iff fd other)

-- The body of `recv_frame` after its reading loop.
after_reading :
    (os : Os)
    → Outcome (Unit {0}) × (Bytes × os.Kernel)
    → Outcome (List Bytes) × (Bytes × os.Kernel)
after_reading os (ok _, (acc, k)) = ((parse_frames acc).0, ((parse_frames acc).1, k))
after_reading os (throw e, (acc, k)) = (throw e, (acc, k))
after_reading os (hangs, (acc, k)) = (hangs, (acc, k))

recv_body_lem :
    (os : Os) (fuel : ℕ) (fd : Fd) (s : Bytes × os.Kernel)
    → recv_body os fuel fd s ≡ after_reading os (recv_loop os fuel fd s)
unfolding recv_body
recv_body_lem os fuel fd s = go (recv_loop os fuel fd s)
  where
    go :
        (r : Outcome (Unit {0}) × (Bytes × os.Kernel))
        → bind_outcome r (λ _. on_first parse_frames) ≡ after_reading os r
    go (ok _, (acc, k)) = unfold after_reading in refl
    go (throw e, (acc, k)) = unfold after_reading in refl
    go (hangs, (acc, k)) = unfold after_reading in refl

module _ (os : Os) (laws : RecvLaws os) (fd : Fd) (c : Communication) (k : os.Kernel) where
  -- The buffer is written back.
  finish :
      Outcome (List Bytes) × (Bytes × os.Kernel)
      → Outcome (List Bytes) × (Communication × os.Kernel)
  finish (r, (acc, k')) = (r, (set_buffer c fd acc, k'))

  parsed-Delivered :
      (b last acc : Bytes) (k0 k' : os.Kernel)
      → FullReads os fd k b k0
      → LastRead os fd k0 last
      → k' ≡ (os.recv fd 4096 k0).1
      → acc ≡ buffer c fd ++ (b ++ last)
      → laws.inbox k fd ≡ (b ++ last) ++ laws.inbox k' fd
      → Delivered os laws fd c k (finish ((parse_frames acc).0, ((parse_frames acc).1, k')))
  unfolding finish
  parsed-Delivered b last acc k0 k' full l after p q = elim (parse_frames-Ended acc) [
    | inl (frames, rest, e, _, _) ↦ rw e (
        delivered frames b last rest (set_buffer c fd rest) k0 k' full l after q
          (ap parse_frames (sym p) ∙ e) (buffer-set_buffer c fd rest))
    | inr (x, rest, e, _) ↦ rw e (
        unparsed x b last rest (set_buffer c fd rest) k0 k' full l after q
          (ap parse_frames (sym p) ∙ e) (buffer-set_buffer c fd rest))
  ]

  finish-Delivered :
      (r : Outcome (Unit {0}) × (Bytes × os.Kernel))
      → Drained os laws fd (buffer c fd) k r
      → Delivered os laws fd c k (finish (after_reading os r))
  unfolding Drained after_reading
  finish-Delivered (ok _, (acc, k')) (b, last, k0, full, l, after, p, q) =
      parsed-Delivered b last acc k0 k' full l after p q
  finish-Delivered (throw e, (acc, k')) (b, k0, full, failed, after, p, q) =
      unfold finish in
      unread e b (set_buffer c fd acc) k0 k' full failed after q (buffer-set_buffer c fd acc ∙ p)
  finish-Delivered (hangs, (acc, k')) d = absurd d

  -- With more reads allowed than bytes are to come, `recv_frame` ends. It reads until a read blocks
  -- or brings less than the array holds; then it returns the frames of the bytes that waited in the
  -- buffer followed by those of its reads, and keeps the bytes behind them, or a header among those
  -- bytes throws. If a read fails before, it throws `recv_failed`, if it meets the end of the stream,
  -- `disconnected`, and the bytes of the full reads before it are added to the buffer.
  pub recv_frame-Delivered :
      (fuel : ℕ)
      → length (laws.inbox k fd) < fuel
      → Delivered os laws fd c k (recv_frame os fuel fd (c, k))
  unfolding recv_frame
  recv_frame-Delivered fuel h = rw (recv_body_lem os fuel fd (buffer c fd, k)) (
      unfold finish in
      finish-Delivered (recv_loop os fuel fd (buffer c fd, k))
        (recv_loop-Drained os laws fd fuel (buffer c fd) k h))
