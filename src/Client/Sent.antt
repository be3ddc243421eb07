-- ===== src/Client/Sent.antt =====
-- What a client's `send_frame` puts on its socket (src/client/client.cpp, src/client/client_win.cpp).
use cpp_chat_channel.Base.{
  ℕ, zero, suc, ◌+◌, ◌%◌, ◌^◌, ◌≤◌, ◌<◌, ◌≡◌, sym, ap, ◌∙◌, some, List, [], ◌∷◌, ◌++◌, Bool, true,
  false, arith, ltb, ◌==◌, nat_eq, if◌then◌else◌, Bytes, length, take, drop, All, drop_all, subst,
  length-drop, take_all, drop-drop, take-append-drop, append_assoc, append-nil, Bool-cases,
  Option-cases, inl, inr,
}
use cpp_chat_channel.Effects.{Outcome, ok, throw, hangs, M, bind_outcome, return}
use cpp_chat_channel.Os.{Fd}
use cpp_chat_channel.Comm.Header.{header}
use cpp_chat_channel.Comm.Stream.RoundTrip.{IsPayload, encode, encode_all, length-header}
use cpp_chat_channel.Client.{Host}
use cpp_chat_channel.Client.Frames.{send_rest, send_frame}

-- A socket sends a first part of what it is given.
pub record ClientSends (host : Host) : Type 0 where
  -- the bytes sent on a socket so far
  pub outbox : host.Kernel → Fd → Bytes
  pub send_takes :
      (fd : Fd) (b : Bytes) (k : host.Kernel) (n : ℕ)
      → (host.send fd b k).0 ≡ some n
      → (n ≤ length b) × (outbox (host.send fd b k).1 fd ≡ outbox k fd ++ take n b)

module _ (host : Host) (fd : Fd) where
  -- The requests of a client, until one cannot be sent.
  unfoldable pub send_all : List Bytes → M host.Kernel Bool
  unfolding send_frame
  send_all [] k = (ok true, k)
  send_all (p ∷ ps) k =
      bind_outcome (send_frame host fd p k) (λ sent. if sent then send_all ps else return false)

module _ (host : Host) (laws : ClientSends host) (fd : Fd) where
  -- A call that sends comes back: with all of the text sent, or with `false`.
  abbrev pub Sends : Bytes → host.Kernel → Outcome Bool × host.Kernel → Type 0
  Sends text k (ok true, k') = laws.outbox k' fd ≡ laws.outbox k fd ++ text
  Sends text k (ok false, k') = Unit
  Sends text k (throw e, k') = ⊥
  Sends text k (hangs, k') = ⊥

  -- A first part that is sent in front of the rest.
  Sends-part :
      (a b : Bytes) (k k' : host.Kernel) (r : Outcome Bool × host.Kernel)
      → laws.outbox k' fd ≡ laws.outbox k fd ++ a
      → Sends b k' r
      → Sends (a ++ b) k r
  Sends-part a b k k' (ok true, k'') e h =
      h ∙ ap (λ s. s ++ b) e ∙ append_assoc (laws.outbox k fd) a b
  Sends-part a b k k' (ok false, k'') e h = tt
  Sends-part a b k k' (throw x, k'') e h = h
  Sends-part a b k k' (hangs, k'') e h = h

  send_rest-Sends :
      (fuel : ℕ) (payload : Bytes) (sent : ℕ) (k : host.Kernel)
      → sent ≤ length payload
      → length payload < sent + fuel
      → Sends (drop sent payload) k (send_rest host fuel fd payload sent k)
  unfolding send_rest
  send_rest-Sends zero payload sent k h l = absurd (omega arith)
  send_rest-Sends (suc fuel) payload sent k h l = elim (Bool-cases (ltb sent (length payload))) [
    | inr e ↦
        let all_sent : sent ≡ length payload = ground arith in
        rw (e, send_rest, drop_all sent payload all_sent) (sym (append-nil (laws.outbox k fd)))
    | inl e ↦
        let more : sent < length payload = ground arith in
        elim (Option-cases (host.send fd (drop sent payload) k).0) [
          | inl r ↦ rw (e, r, send_rest) tt
          | inr (zero, r) ↦ rw (e, r, send_rest) tt
          | inr (suc n, r) ↦
              let left = drop sent payload in
              let (fits, took) = laws.send_takes fd left k (suc n) r in
              let within : sent + suc n ≤ length payload =
                omega (arith, fits, length-drop sent payload) in
              let k' = (host.send fd left k).1 in
              let rest = send_rest-Sends fuel payload (sent + suc n) k' within (omega arith) in
              let some_sent : (suc n == 0) ≡ false = ground arith in
              rw (e, r, some_sent, send_rest)
                (subst (λ b. Sends b k (send_rest host fuel fd payload (sent + suc n) k'))
                  (ap (λ b. take (suc n) left ++ b) (sym (drop-drop sent (suc n) payload))
                    ∙ take-append-drop (suc n) left)
                  (Sends-part (take (suc n) left) (drop (sent + suc n) payload) k k' _ took rest))
        ]
  ]

  pub send_frame-Sends :
      (p : Bytes) (k : host.Kernel) → IsPayload p → Sends (encode p) k (send_frame host fd p k)
  unfolding send_frame encode
  send_frame-Sends p k h =
      let head = header (length p % 2 ^ 32) in
      let same : head ≡ header (length p) =
        let small : length p % 2 ^ 32 ≡ length p = omega arith in ap header small in
      let four : length head ≡ 4 = ap length same ∙ length-header (length p) (omega arith) in
      let k' = (host.send fd head k).1 in
      let payload = send_rest-Sends (suc (length p)) p 0 k' (omega arith) (omega arith) in
      elim (Option-cases (host.send fd head k).0) [
        | inl r ↦ rw (r, send_frame) tt
        | inr (n, r) ↦ elim (Bool-cases (n == 4)) [
          | inr e ↦ rw (r, e, send_frame) tt
          | inl e ↦
              let whole : n ≡ length head = ground (arith, four) in
              let took = (laws.send_takes fd head k n r).1 in
              let sent = took ∙ ap (◌++◌ (laws.outbox k fd)) (take_all n head whole ∙ same) in
              rw (r, e, send_frame) (Sends-part (header (length p)) p k k' _ sent payload)
        ]
      ]

  -- The requests of a client come back too: all sent, or with `false`.
  pub send_all-Sends :
      (ps : List Bytes) (k : host.Kernel)
      → All IsPayload ps
      → Sends (encode_all ps) k (send_all host fd ps k)
  unfolding send_all encode_all
  send_all-Sends [] k a = sym (append-nil (laws.outbox k fd))
  send_all-Sends (p ∷ ps) k (h, a) =
      next (send_frame host fd p k) (send_frame-Sends p k h) (λ k'. send_all-Sends ps k' a)
    where
      next :
          (r : Outcome Bool × host.Kernel)
          → Sends (encode p) k r
          → ((k' : host.Kernel) → Sends (encode_all ps) k' (send_all host fd ps k'))
          → Sends
              (encode p ++ encode_all ps)
              k
              (bind_outcome r (λ sent. if sent then send_all host fd ps else return false))
      next (ok true, k') e rest = Sends-part (encode p) (encode_all ps) k k' _ e (rest k')
      next (ok false, k') e rest = tt
      next (throw x, k') e rest = e
      next (hangs, k') e rest = e
