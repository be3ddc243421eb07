-- ===== src/Comm/Buffers/Send.antt =====
-- What `send_frame` puts on a socket (src/libs/communication.cpp).
use cpp_chat_channel.Base.{
  ℕ, zero, suc, ◌+◌, ◌-◌, ◌%◌, ◌^◌, ◌≤◌, ◌<◌, ◌≡◌, refl, sym, ap, subst, ◌∙◌, ◌⊎◌, inl, inr, Option,
  none, some, [], ◌++◌, false, arith, ltb, ltb→lt, ◌==◌, nat_eq, Bytes, length, take, drop,
  length-drop, drop_all, take_all, take-append-drop, drop-take, append_assoc, append-nil,
  Bool-cases,
}
use cpp_chat_channel.Effects.{Outcome, ok, throw, hangs, M, bind_outcome, frame_too_large}
use cpp_chat_channel.Os.{Fd, Os}
use cpp_chat_channel.Os.Laws.{SendLaws}
use cpp_chat_channel.Comm.Header.{header}
use cpp_chat_channel.Comm.Stream.{max_frame_size}
use cpp_chat_channel.Comm.Stream.RoundTrip.{encode, IsPayload, length-header}
use cpp_chat_channel.Comm.Buffers.{send_loop, send_payload, send_header, send_frame}
use cpp_chat_channel.Comm.Buffers.Rounds.{
  send_loop_done, send_loop_refused, send_loop_more, send_loop_stalled, Count-cases,
}

-- A first part of the text.
pub data IsPart (part whole : Bytes) : Type 0 where
  part_of : (rest : Bytes) → whole ≡ part ++ rest → IsPart part whole

-- How a call that sends ends: with all of the text sent, or by a throw with a first part sent.
unfoldable pub Sent :
    (os : Os) (laws : SendLaws os)
    → Fd
    → Bytes
    → os.Kernel
    → Outcome (Unit {0}) × os.Kernel
    → Type 0
Sent os laws fd text k (ok _, k') = laws.outbox k' fd ≡ laws.outbox k fd ++ text
Sent os laws fd text k (throw _, k') =
    (part : Bytes) × IsPart part text × (laws.outbox k' fd ≡ laws.outbox k fd ++ part)
Sent os laws fd text k (hangs, k') = ⊥

IsPart-nil : (whole : Bytes) → IsPart [] whole
IsPart-nil whole = part_of whole refl

IsPart-append : (a part rest : Bytes) → IsPart part rest → IsPart (a ++ part) (a ++ rest)
IsPart-append a part rest (part_of more e) =
    part_of more (ap (◌++◌ a) e ∙ sym (append_assoc a part more))

-- A payload that may be sent passes the tests.
send_frame_sends :
    (os : Os) (fd : Fd) (payload : Bytes) (k : os.Kernel)
    → IsPayload payload
    → send_frame os fd payload k
      ≡ bind_outcome (send_header os fd (length payload) k) (λ _. send_payload os fd payload)
unfolding send_frame
send_frame_sends os fd payload k h = rw (small) (rw (nonempty, fits, send_frame))
  where
    small : length payload % 2 ^ 32 ≡ length payload
    small = omega arith

    nonempty : (length payload == 0) ≡ false
    nonempty = ground arith

    fits : ltb max_frame_size (length payload) ≡ false
    fits = ground arith

-- The texts that `send_frame` does not send: an empty one is dropped without a word, and one that is
-- too large throws; the system is not asked in either case.
pub send_frame_unsent :
    (os : Os) (fd : Fd) (payload : Bytes) (k : os.Kernel)
    → length payload < 2 ^ 32
    → (length payload ≡ 0) ⊎ (max_frame_size < length payload)
    → ((length payload ≡ 0) × (send_frame os fd payload k ≡ (ok tt, k)))
      ⊎ ((max_frame_size < length payload)
          × (send_frame os fd payload k ≡ (throw frame_too_large, k)))
unfolding send_frame
send_frame_unsent os fd payload k h c = ground arith

module _ (os : Os) (laws : SendLaws os) (fd : Fd) where
  -- What was sent before goes in front.
  Sent-append :
      (a text : Bytes) (k k' : os.Kernel) (r : Outcome (Unit {0}) × os.Kernel)
      → laws.outbox k' fd ≡ laws.outbox k fd ++ a
      → Sent os laws fd text k' r
      → Sent os laws fd (a ++ text) k r
  unfolding Sent
  Sent-append a text k k' (ok _, k'') e s =
      s ∙ ap (λ b. b ++ text) e ∙ append_assoc (laws.outbox k fd) a text
  Sent-append a text k k' (throw _, k'') e (part, p, s) = (
    a ++ part,
    IsPart-append a part text p,
    s ∙ ap (λ b. b ++ part) e ∙ append_assoc (laws.outbox k fd) a part,
  )
  Sent-append a text k k' (hangs, k'') e s = s

  -- A send that fails, or that sends no byte.
  nothing_sent :
      (b : Bytes) (k : os.Kernel)
      → ((os.send fd b k).0 ≡ none) ⊎ ((os.send fd b k).0 ≡ some 0)
      → laws.outbox (os.send fd b k).1 fd ≡ laws.outbox k fd ++ []
  nothing_sent b k (inl r) = laws.send_fails fd b k r ∙ sym (append-nil (laws.outbox k fd))
  nothing_sent b k (inr r) = (laws.send_takes fd b k 0 r).1

  send_loop-Sent :
      (f : ℕ) (payload : Bytes) (total : ℕ) (k : os.Kernel)
      → length payload - total < f
      → total ≤ length payload
      → Sent os laws fd (drop total payload) k (send_loop os f fd payload total k)
  unfolding Sent
  send_loop-Sent zero payload total k h le = absurd (omega arith)
  send_loop-Sent (suc f) payload total k h le = elim (Bool-cases (ltb total (length payload))) [
    | inl more ↦ elim (Count-cases (os.send fd (drop total payload) k).0) [
      | inl r ↦
          rw (send_loop_refused os f fd payload total k more r)
            ([], IsPart-nil (drop total payload), nothing_sent (drop total payload) k (inl r))
      | inr (inl r) ↦
          rw (send_loop_stalled os f fd payload total k more r)
            ([], IsPart-nil (drop total payload), nothing_sent (drop total payload) k (inr r))
      | inr (inr (n, r)) ↦
          let took = laws.send_takes fd (drop total payload) k (suc n) r in
          rw (send_loop_more os f fd payload total k n more r) (
            subst
              (λ text.
                Sent os laws fd text k
                  (send_loop os f fd payload (total + suc n) (os.send fd (drop total payload) k).1))
              (sym (drop-take total (suc n) payload))
              (Sent-append (take (suc n) (drop total payload)) (drop (total + suc n) payload) k
                (os.send fd (drop total payload) k).1 _ took.1
                (send_loop-Sent f payload (total + suc n) (os.send fd (drop total payload) k).1
                  (omega (arith, ltb→lt total (length payload) more))
                  (omega (
                    arith,
                    took.0,
                    length-drop total payload,
                    ltb→lt total (length payload) more,
                  )))))
    ]
    | inr done ↦
        rw (send_loop_done os f fd payload total k done)
          (rw (drop_all total payload (ground arith)) (sym (append-nil (laws.outbox k fd))))
  ]

  send_payload-Sent :
      (payload : Bytes) (k : os.Kernel) → Sent os laws fd payload k (send_payload os fd payload k)
  unfolding send_payload
  send_payload-Sent payload k =
      send_loop-Sent (suc (length payload)) payload 0 k (omega arith) (omega arith)

  send_header-Sent :
      (len : ℕ) (k : os.Kernel)
      → len < 65536
      → Sent os laws fd (header len) k (send_header os fd len k)
  unfolding Sent send_header
  send_header-Sent len k h = go (os.send fd (header len) k).0 refl
    where
      go :
          (o : Option ℕ)
          → (os.send fd (header len) k).0 ≡ o
          → Sent os laws fd (header len) k (send_header os fd len k)
      go none e =
          rw (e, send_header) ([], IsPart-nil (header len), nothing_sent (header len) k (inl e))
      go (some n) e =
          let took = laws.send_takes fd (header len) k n e in
          elim (Bool-cases (n == 4)) [
            | inl all ↦
                rw (e, send_header)
                  (rw (all, send_header)
                    (took.1
                      ∙ ap (◌++◌ (laws.outbox k fd))
                          (take_all n (header len) (ground (arith, length-header len h)))))
            | inr short ↦
                rw (e, short, send_header)
                  (
                    take n (header len),
                    part_of (drop n (header len)) (sym (take-append-drop n (header len))),
                    took.1,
                  )
          ]

  IsPart-extend : (part a b : Bytes) → IsPart part a → IsPart part (a ++ b)
  IsPart-extend part a b (part_of rest e) =
      part_of (rest ++ b) (ap (λ t. t ++ b) e ∙ append_assoc part rest b)

  -- One text sent, and then another.
  Sent-then :
      (a b : Bytes) (k : os.Kernel) (r : Outcome (Unit {0}) × os.Kernel)
      (m : M os.Kernel (Unit {0}))
      → Sent os laws fd a k r
      → ((k' : os.Kernel) → Sent os laws fd b k' (m k'))
      → Sent os laws fd (a ++ b) k (bind_outcome r (λ _. m))
  unfolding Sent
  Sent-then a b k (ok _, k') m s next = Sent-append a b k k' (m k') s (next k')
  Sent-then a b k (throw _, k') m (part, p, s) next = (part, IsPart-extend part a b p, s)
  Sent-then a b k (hangs, k') m s next = s

  -- `send_frame` of a payload that is neither empty nor too large returns with the whole frame sent
  -- behind what was sent before, however the system splits the payload, or it throws and has sent
  -- a first part of the frame; it always ends.
  pub send_frame-Sent :
      (payload : Bytes) (k : os.Kernel)
      → IsPayload payload
      → Sent os laws fd (encode payload) k (send_frame os fd payload k)
  unfolding encode
  send_frame-Sent payload k h = rw (send_frame_sends os fd payload k h) (
      Sent-then (header (length payload)) payload k (send_header os fd (length payload) k)
        (send_payload os fd payload) (send_header-Sent (length payload) k (omega arith))
        (send_payload-Sent payload))
