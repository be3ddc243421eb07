-- ===== src/Comm/Buffers/Broadcast.antt =====
-- Who gets a broadcast (src/libs/communication.cpp).
use cpp_chat_channel.Base.{
  ◌≡◌, ◌≢◌, refl, sym, ap, subst, ◌∙◌, inl, inr, List, [], ◌∷◌, ◌++◌, true, false, arith, ◌==◌,
  ==_iff, int_eq, Bytes, Bool-cases,
}
use cpp_chat_channel.Base.Assoc.{contains, IsDistinct}
use cpp_chat_channel.Effects.{Exn, Outcome, ok, throw, hangs}
use cpp_chat_channel.Os.{Fd, Os}
use cpp_chat_channel.Os.Laws.{SendLaws}
use cpp_chat_channel.Comm.Stream.RoundTrip.{encode, IsPayload}
use cpp_chat_channel.Comm.Buffers.{send_frame, broadcast}
use cpp_chat_channel.Comm.Buffers.Send.{IsPart, Sent, send_frame-Sent}
use cpp_chat_channel.Comm.Buffers.Untouched.{send_frame_elsewhere}

-- What the sockets show after a broadcast of `text` from `k` to `k'`.
pub record Reached (os : Os) (laws : SendLaws os) (text : Bytes) (k k' : os.Kernel)
    (clients failed : List Fd) : Type 0 where
  -- a client that did not fail has the whole frame
  pub served :
      (fd : Fd)
      → contains fd clients ≡ true
      → contains fd failed ≡ false
      → laws.outbox k' fd ≡ laws.outbox k fd ++ text
  -- one that failed has a first part of it
  pub cut_off :
      (fd : Fd)
      → contains fd failed ≡ true
      → (part : Bytes) × IsPart part text × (laws.outbox k' fd ≡ laws.outbox k fd ++ part)
  -- any other socket has nothing, and only clients fail
  pub left_alone :
      (fd : Fd)
      → contains fd clients ≡ false
      → (contains fd failed ≡ false) × (laws.outbox k' fd ≡ laws.outbox k fd)

module _ (os : Os) (payload : Bytes) where
  broadcast_ok :
      (fd : Fd) (cs failed : List Fd) (k k' : os.Kernel) (u : Unit {0})
      → send_frame os fd payload k ≡ (ok u, (send_frame os fd payload k).1)
      → broadcast os cs payload (send_frame os fd payload k).1 ≡ (ok failed, k')
      → broadcast os (fd ∷ cs) payload k ≡ (ok failed, k')
  unfolding broadcast
  broadcast_ok fd cs failed k k' u p q = rw (p, q, broadcast)

  broadcast_throw :
      (fd : Fd) (cs failed : List Fd) (k k' : os.Kernel) (e : Exn)
      → send_frame os fd payload k ≡ (throw e, (send_frame os fd payload k).1)
      → broadcast os cs payload (send_frame os fd payload k).1 ≡ (ok failed, k')
      → broadcast os (fd ∷ cs) payload k ≡ (ok (fd ∷ failed), k')
  unfolding broadcast
  broadcast_throw fd cs failed k k' e p q = rw (p, q, broadcast)

-- The first client's send in front of a broadcast to the others.
module _ (os : Os) (laws : SendLaws os) (text : Bytes) (fd : Fd) (cs failed : List Fd)
    (k k1 k' : os.Kernel) (fresh : contains fd cs ≡ false)
    (others : (other : Fd) → fd ≢ other → laws.outbox k1 other ≡ laws.outbox k other)
    (r : Reached os laws text k1 k' cs failed) where
  -- A later client is another socket.
  later_apart : (other : Fd) → contains other cs ≡ true → fd ≢ other
  later_apart other m e = cc (fresh, m, ap (λ x. contains x cs) e)

  failed_apart : (other : Fd) → contains other failed ≡ true → fd ≢ other
  failed_apart other m e = cc ((r.left_alone fd fresh).0, m, ap (λ x. contains x failed) e)

  ne_of_test : (other : Fd) → (fd == other) ≡ false → fd ≢ other
  ne_of_test other m e = cc (m, (==_iff fd other).1 e)

  Reached-ok :
      laws.outbox k1 fd ≡ laws.outbox k fd ++ text → Reached os laws text k k' (fd ∷ cs) failed
  unfolding contains
  Reached-ok s = record {
    served = λ other m l. elim (Bool-cases (fd == other)) [
      | inl e ↦
          let same = (==_iff fd other).0 e in
          subst (λ x. laws.outbox k' x ≡ laws.outbox k x ++ text) same
            ((r.left_alone fd fresh).1 ∙ s)
      | inr e ↦
          r.served other (ground (arith, m, e)) l
          ∙ ap (λ b. b ++ text) (others other (ne_of_test other e))
    ];
    cut_off = λ other m.
        let (part, p, q) = r.cut_off other m in
        (part, p, q ∙ ap (λ b. b ++ part) (others other (failed_apart other m)));
    left_alone = λ other m. (
      (r.left_alone other (ground (arith, m))).0,
      (r.left_alone other (ground (arith, m))).1
          ∙ others other (ne_of_test other (ground (arith, m))),
    );
  }

  Reached-throw :
      (part : Bytes)
      → IsPart part text
      → laws.outbox k1 fd ≡ laws.outbox k fd ++ part
      → Reached os laws text k k' (fd ∷ cs) (fd ∷ failed)
  unfolding contains
  Reached-throw part p s = record {
    served = λ other m l.
        r.served other (ground (arith, m, l)) (ground (arith, l))
        ∙ ap (λ b. b ++ text) (others other (ne_of_test other (ground (arith, l))));
    cut_off = λ other m. elim (Bool-cases (fd == other)) [
      | inl e ↦
          let same = (==_iff fd other).0 e in
          subst
            (λ x. (part : Bytes) × IsPart part text × (laws.outbox k' x ≡ laws.outbox k x ++ part))
            same (part, p, (r.left_alone fd fresh).1 ∙ s)
      | inr e ↦
          let (part', p', q) = r.cut_off other (ground (arith, m, e)) in
          (part', p', q ∙ ap (λ b. b ++ part') (others other (ne_of_test other e)))
    ];
    left_alone = λ other m. (
      ground (arith, m, r.left_alone other),
      (r.left_alone other (ground (arith, m))).1
          ∙ others other (ne_of_test other (ground (arith, m))),
    );
  }

broadcast_first :
    (os : Os) (laws : SendLaws os) (payload : Bytes)
    → IsPayload payload
    → (fd : Fd) (cs failed : List Fd) (k k' : os.Kernel) → contains fd cs ≡ false
    → broadcast os cs payload (send_frame os fd payload k).1 ≡ (ok failed, k')
    → Reached os laws (encode payload) (send_frame os fd payload k).1 k' cs failed
    → (r : Outcome (Unit {0}) × os.Kernel) → send_frame os fd payload k ≡ r
    → Sent os laws fd (encode payload) k r
    → (failed' : List Fd) × (k'' : os.Kernel) × (broadcast os (fd ∷ cs) payload k
        ≡ (ok failed', k''))
      × Reached os laws (encode payload) k k'' (fd ∷ cs) failed'
unfolding Sent
broadcast_first os laws payload h fd cs failed k k' fresh e r (ok u, k1) p s =
    let state : (send_frame os fd payload k).1 ≡ k1 = ap (λ t. t.1) p in
    (
      failed,
      k',
      broadcast_ok os payload fd cs failed k k' u (p ∙ ap (λ x. (ok u, x)) (sym state)) e,
      Reached-ok os laws (encode payload) fd cs failed k (send_frame os fd payload k).1 k' fresh
          (λ other apart. send_frame_elsewhere os laws fd other apart payload k) r
          (ap (λ x. laws.outbox x fd) state ∙ s),
    )
broadcast_first os laws payload h fd cs failed k k' fresh e r (throw x, k1) p (part, q, s) =
    let state : (send_frame os fd payload k).1 ≡ k1 = ap (λ t. t.1) p in
    (
      fd ∷ failed,
      k',
      broadcast_throw os payload fd cs failed k k' x (p ∙ ap (λ y. (throw x, y)) (sym state)) e,
      Reached-throw os laws (encode payload) fd cs failed k (send_frame os fd payload k).1 k' fresh
          (λ other apart. send_frame_elsewhere os laws fd other apart payload k) r part q
          (ap (λ y. laws.outbox y fd) state ∙ s),
    )
broadcast_first os laws payload h fd cs failed k k' fresh e r (hangs, k1) p s = absurd s

-- A broadcast of a sendable payload to distinct clients returns, whatever the sends do. Each client
-- that it does not report has the whole frame behind what was sent to it before, each that it
-- reports has a first part of it, it reports clients only, and no other socket gets a byte.
pub broadcast-Reached :
    (os : Os) (laws : SendLaws os) (payload : Bytes) (clients : List Fd) (k : os.Kernel)
    → IsPayload payload
    → IsDistinct clients
    → (failed : List Fd) × (k' : os.Kernel) × (broadcast os clients payload k ≡ (ok failed, k'))
      × Reached os laws (encode payload) k k' clients failed
unfolding contains
broadcast-Reached os laws payload [] k h d = (
  [],
  k,
  unfold broadcast in refl,
  record { served = λ fd m l. cc; cut_off = λ fd m. cc; left_alone = λ fd m. (refl, refl) },
)
broadcast-Reached os laws payload (fd ∷ cs) k h (fresh, d) =
    let (failed, k', e, r) =
      broadcast-Reached os laws payload cs (send_frame os fd payload k).1 h d in
    broadcast_first os laws payload h fd cs failed k k' fresh e r (send_frame os fd payload k) refl
      (send_frame-Sent os laws fd payload k h)
