-- ===== src/Server/Base/Accept.antt =====
-- A connection that comes when the pool is full (src/server/server_base.cpp).
use cpp_chat_channel.Base.{
  ◌≤◌, ◌≡◌, ◌≢◌, ap, subst, ◌∙◌, Bool, true, false, arith, ==_iff, int_eq, length,
}
use cpp_chat_channel.Base.Assoc.{contains, add, contains-add}
use cpp_chat_channel.Effects.{Outcome, ok, throw, hangs, M, ◌>>◌, bind_outcome, pool_full}
use cpp_chat_channel.Os.{Fd, fd_err, Os}
use cpp_chat_channel.Os.Laws.{EpollLaws, CloseLaws}
use cpp_chat_channel.Comm.Buffers.{Communication, send_frame}
use cpp_chat_channel.Comm.Buffers.Untouched.{send_frame_keeps}
use cpp_chat_channel.Tracker.{Tracker, add_client}
use cpp_chat_channel.Tracker.Mirror.{IsMirror, IsMirror-kernel}
use cpp_chat_channel.Server.{Globals, Server, State}
use cpp_chat_channel.Server.Base.{server_full, reject, on_accept, resolve_deletion}
use cpp_chat_channel.Server.Base.Deletion.{at, kern, resolve_deletion-Purged}

-- The client is marked.
abbrev pub marked : {D : Type 0} → Fd → Server D → Server D
marked client s = record s { next_deletion = add client s.next_deletion }

-- A full tracker refuses a client and stays as it is.
add_client_full :
    (os : Os) (listener client : Fd) (t : Tracker) (k : os.Kernel)
    → client ≢ fd_err
    → t.efd ≢ fd_err
    → client ≢ listener
    → t.max_fd ≤ length t.clients
    → add_client os listener client (t, k) ≡ (throw pool_full, (t, k))
unfolding add_client
add_client_full os listener client t k valid ready apart full =
    ground (arith, ==_iff client fd_err, ==_iff t.efd fd_err, ==_iff client listener)

module _ (os : Os) (D : Type 0) (s : Server D) (g : Globals os.Kernel) (client : Fd) (t : Tracker)
    (c : Communication) (k : os.Kernel) (valid : client ≢ fd_err) (ready : t.efd ≢ fd_err)
    (apart : client ≢ g.listener) (full : t.max_fd ≤ length t.clients) where
  -- What the handler does with the answer of the send.
  after_telling : Outcome (Unit {0}) × os.Kernel → Outcome (Unit {0}) × State os.Kernel D
  after_telling (ok _, k') = (ok tt, (at (marked client s) t c, kern g k'))
  after_telling (throw e, k') = (throw e, (at s t c, kern g k'))
  after_telling (hangs, k') = (hangs, (at s t c, kern g k'))

  on_accept_full :
      on_accept os D client (at s t c, kern g k)
      ≡ after_telling (send_frame os client server_full k)
  unfolding on_accept reject after_telling
  on_accept_full =
      rw (add_client_full os g.listener client t k valid ready apart full) (ground arith)

-- The deletion that follows a rejection in the same tick.
abbrev pub reject_tick : (os : Os) (D : Type 0) → Fd → M (State os.Kernel D) (Unit {0})
reject_tick os D client = on_accept os D client >> resolve_deletion os D

module _ (os : Os) (epoll : EpollLaws os) (laws : CloseLaws os epoll) (D : Type 0) (s : Server D)
    (g : Globals os.Kernel) (client : Fd) (t : Tracker) (c : Communication) (k : os.Kernel) where
  told-IsMirror :
      IsMirror os epoll g.listener (t, k)
      → IsMirror os epoll g.listener (t, (send_frame os client server_full k).1)
  told-IsMirror m =
      IsMirror-kernel os epoll g.listener t k (send_frame os client server_full k).1
        (λ other.
          send_frame_keeps os client Bool (λ x. epoll.interest x t.efd other)
            (λ b x. laws.send_interest client t.efd other b x) server_full k)
        m

  told_open : laws.is_open (send_frame os client server_full k).1 client ≡ laws.is_open k client
  told_open =
      send_frame_keeps os client Bool (λ x. laws.is_open x client)
        (λ b x. laws.send_open client client b x) server_full k

  -- A new connection that finds the pool full, and is told so, is marked for deletion; yet the
  -- deletion of that tick leaves its socket open, since the tracker never had it, and the client set
  -- stays without it.
  pub rejected_stays_open :
      (k1 : os.Kernel)
      → IsMirror os epoll g.listener (t, k)
      → client ≢ fd_err
      → client ≢ g.listener
      → t.max_fd ≤ length t.clients
      → contains client t.clients ≡ false
      → laws.is_open k client ≡ true
      → send_frame os client server_full k ≡ (ok tt, k1)
      → (s' : Server D) × (t' : Tracker) × (c' : Communication) × (k' : os.Kernel) × (reject_tick os
            D client
            (at s t c, kern g k)
          ≡ (ok tt, (at s' t' c', kern g k')))
        × (contains client s'.next_deletion ≡ true)
        × (contains client t'.clients ≡ false)
        × (laws.is_open k' client ≡ true)
  unfolding after_telling
  rejected_stays_open k1 m valid apart full absent alive sent =
      let state : (send_frame os client server_full k).1 ≡ k1 = ap (λ r. r.1) sent in
      let m1 = subst (λ x. IsMirror os epoll g.listener (t, x)) state (told-IsMirror m) in
      let (t', c', k', e, p) =
        resolve_deletion-Purged os epoll laws D (marked client s) g t c k1 m1 in
      (
        marked client s,
        t',
        c',
        k',
        ap (λ r. bind_outcome r (λ _. resolve_deletion os D))
              (on_accept_full os D s g client t c k valid m.initialized apart full
                ∙ ap (after_telling os D s g client t c k valid m.initialized apart full) sent)
            ∙ e,
        ground (arith, contains-add client client s.next_deletion, ==_iff client client),
        ground (arith, p.members client, absent),
        p.opened client
            ∙ ground (arith, absent, ap (λ x. laws.is_open x client) state, told_open, alive),
      )
