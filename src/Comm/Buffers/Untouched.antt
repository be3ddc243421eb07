-- ===== src/Comm/Buffers/Untouched.antt =====
-- `send_frame` and the state that no call of send changes (src/libs/communication.cpp).
use cpp_chat_channel.Base.{
  ℕ, zero, suc, ◌+◌, ◌%◌, ◌^◌, ◌≡◌, ◌≢◌, refl, ◌∙◌, inl, inr, arith, ltb, nat_eq, Bytes, length,
  drop, Bool-cases,
}
use cpp_chat_channel.Os.{Fd, Os}
use cpp_chat_channel.Os.Laws.{SendLaws}
use cpp_chat_channel.Comm.Header.{header}
use cpp_chat_channel.Comm.Buffers.{send_loop, send_payload, send_header, send_frame}
use cpp_chat_channel.Comm.Buffers.Rounds.{
  send_loop_done, send_loop_refused, send_loop_more, send_loop_stalled, Count-cases,
}

-- What no call of send changes, `send_frame` does not change.
module _ (os : Os) (fd : Fd) (A : Type 0) (view : os.Kernel → A)
    (kept : (b : Bytes) (k : os.Kernel) → view (os.send fd b k).1 ≡ view k) where
  send_loop_keeps :
      (f : ℕ) (payload : Bytes) (total : ℕ) (k : os.Kernel)
      → view (send_loop os f fd payload total k).1 ≡ view k
  send_loop_keeps zero payload total k = unfold send_loop in refl
  send_loop_keeps (suc f) payload total k = elim (Bool-cases (ltb total (length payload))) [
    | inl more ↦ elim (Count-cases (os.send fd (drop total payload) k).0) [
      | inl r ↦ rw (send_loop_refused os f fd payload total k more r) (kept (drop total payload) k)
      | inr (inl r) ↦
          rw (send_loop_stalled os f fd payload total k more r) (kept (drop total payload) k)
      | inr (inr (n, r)) ↦
          rw (send_loop_more os f fd payload total k n more r)
            (send_loop_keeps f payload (total + suc n) _ ∙ kept (drop total payload) k)
    ]
    | inr done ↦ rw (send_loop_done os f fd payload total k done)
  ]

  send_header_keeps : (len : ℕ) (k : os.Kernel) → view (send_header os fd len k).1 ≡ view k
  unfolding send_header
  send_header_keeps len k = ground (arith, kept (header len) k)

  pub send_frame_keeps :
      (payload : Bytes) (k : os.Kernel) → view (send_frame os fd payload k).1 ≡ view k
  unfolding send_frame send_payload
  send_frame_keeps payload k = ground (
    arith,
    send_header_keeps (length payload % 2 ^ 32) k,
    send_loop_keeps (suc (length payload)) payload 0
        (send_header os fd (length payload % 2 ^ 32) k).1,
  )

-- Nothing is sent on another socket.
pub send_frame_elsewhere :
    (os : Os) (laws : SendLaws os) (fd other : Fd)
    → fd ≢ other
    → (payload : Bytes) (k : os.Kernel)
    → laws.outbox (send_frame os fd payload k).1 other ≡ laws.outbox k other
send_frame_elsewhere os laws fd other apart =
    send_frame_keeps os fd Bytes (λ k. laws.outbox k other)
      (λ b k. laws.send_elsewhere fd other b k apart)
