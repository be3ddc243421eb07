-- ===== src/Server/Base/Deletion.antt =====
-- What `ServerBase::resolve_deletion` does to the marked connections (src/server/server_base.cpp).
use cpp_chat_channel.Base.{
  ◌≡◌, refl, ap, ◌∙◌, inl, inr, some, List, [], ◌∷◌, arith, int_eq, Bool-cases,
}
use cpp_chat_channel.Base.Assoc.{contains, remove}
use cpp_chat_channel.Effects.{Outcome, ok, throw, hangs, bind_outcome}
use cpp_chat_channel.Os.{Fd, Os}
use cpp_chat_channel.Os.Laws.{EpollLaws, CloseLaws}
use cpp_chat_channel.Comm.Buffers.{Communication, clear_buffer}
use cpp_chat_channel.Tracker.{Tracker, delete_client}
use cpp_chat_channel.Tracker.Mirror.{IsMirror}
use cpp_chat_channel.Tracker.Delete.{delete_member, delete_other}
use cpp_chat_channel.Server.{Globals, Server, State}
use cpp_chat_channel.Server.Base.{delete_one, each_fd, resolve_deletion}
use cpp_chat_channel.Server.Base.Purged.{
  Purged, Purged-nil, Purged-member, Purged-other, member-IsMirror, other-kernel,
}

-- A server with its tracker and its buffers.
abbrev pub at : {D : Type 0} → Server D → Tracker → Communication → Server D
at s t c = record s { con_tracker = some t; comm = some c }

abbrev pub kern : {K : Type 0} → Globals K → K → Globals K
kern g k = record g { kernel = k }

module _ (os : Os) (D : Type 0) (s : Server D) (g : Globals os.Kernel) where
  -- What is done when the tracker has answered.
  after_delete :
      Fd
      → Communication
      → Outcome (Unit {0}) × (Tracker × os.Kernel)
      → Outcome (Unit {0}) × State os.Kernel D
  after_delete fd c (ok _, (t, k)) = (ok tt, (at s t (clear_buffer fd c), kern g (os.close fd k)))
  after_delete fd c (throw e, (t, k)) = (ok tt, (at s t c, kern g k))
  after_delete fd c (hangs, (t, k)) = (hangs, (at s t c, kern g k))

  delete_one_lem :
      (fd : Fd) (t : Tracker) (c : Communication) (k : os.Kernel)
      → delete_one os D fd (at s t c, kern g k)
        ≡ after_delete fd c (delete_client os g.listener fd (t, k))
  unfolding delete_one after_delete
  delete_one_lem fd t c k = ground arith

module _ (os : Os) (epoll : EpollLaws os) (laws : CloseLaws os epoll) (D : Type 0) (s : Server D)
    (g : Globals os.Kernel) where
  -- The loop returns, and purges what it is given.
  abbrev Resolves : List Fd → Tracker → Communication → os.Kernel → Type 0
  Resolves fds t c k =
      (t' : Tracker) × (c' : Communication) × (k' : os.Kernel) × (each_fd os D (delete_one os D) fds
          (at s t c, kern g k)
        ≡ (ok tt, (at s t' c', kern g k')))
      × Purged os epoll laws g.listener fds t c k t' c' k'

  each_fd_step :
      (fd : Fd) (fds : List Fd) (t t1 : Tracker) (c c1 : Communication) (k k1 : os.Kernel)
      {r : Outcome (Unit {0}) × State os.Kernel D}
      → delete_one os D fd (at s t c, kern g k) ≡ (ok tt, (at s t1 c1, kern g k1))
      → each_fd os D (delete_one os D) fds (at s t1 c1, kern g k1) ≡ r
      → each_fd os D (delete_one os D) (fd ∷ fds) (at s t c, kern g k) ≡ r
  unfolding each_fd
  each_fd_step fd fds t t1 c c1 k k1 p q =
      ap (λ x. bind_outcome x (λ _. each_fd os D (delete_one os D) fds)) p ∙ q

  each_fd-Purged :
      (fds : List Fd) (t : Tracker) (c : Communication) (k : os.Kernel)
      → IsMirror os epoll g.listener (t, k)
      → Resolves fds t c k
  unfolding after_delete
  each_fd-Purged [] t c k m =
      (t, c, k, unfold each_fd in refl, Purged-nil os epoll laws g.listener t c k m)
  each_fd-Purged (fd ∷ fds) t c k m = elim (Bool-cases (contains fd t.clients)) [
    | inl member ↦
        let t1 = record t { clients = remove fd t.clients } in
        let k1 = os.close fd (os.epoll_del t.efd fd k).1 in
        let (t', c', k', e, p) =
          each_fd-Purged fds t1 (clear_buffer fd c) k1
            (member-IsMirror os epoll laws g.listener fd t k member m) in
        (
          t',
          c',
          k',
          each_fd_step fd fds t t1 c (clear_buffer fd c) k k1
              (delete_one_lem os D s g fd t c k
                ∙ ap (after_delete os D s g fd c)
                    (delete_member os epoll g.listener fd t k m member))
              e,
          Purged-member os epoll laws g.listener fd fds t t' c c' k k' member p,
        )
    | inr absent ↦
        let (x, k1, thrown, how) = delete_other os epoll g.listener fd t k m absent in
        let (m1, same) = other-kernel os epoll laws g.listener fd t k k1 how m in
        let (t', c', k', e, p) = each_fd-Purged fds t c k1 m1 in
        (
          t',
          c',
          k',
          each_fd_step fd fds t t c c k k1
              (delete_one_lem os D s g fd t c k ∙ ap (after_delete os D s g fd c) thrown) e,
          Purged-other os epoll laws g.listener fd fds t t' c c' k k' k1 absent same p,
        )
  ]

-- `resolve_deletion` never throws. The marked connections that are clients are deleted, their
-- sockets are closed and their buffers are dropped; every other connection, a marked one too, keeps
-- its place, its socket and its buffer; and the tracker still mirrors its epoll instance.
pub resolve_deletion-Purged :
    (os : Os) (epoll : EpollLaws os) (laws : CloseLaws os epoll) (D : Type 0) (s : Server D)
    (g : Globals os.Kernel) (t : Tracker) (c : Communication) (k : os.Kernel)
    → IsMirror os epoll g.listener (t, k)
    → (t' : Tracker) × (c' : Communication) × (k' : os.Kernel) × (resolve_deletion os D
          (at s t c, kern g k)
        ≡ (ok tt, (at s t' c', kern g k')))
      × Purged os epoll laws g.listener s.next_deletion t c k t' c' k'
unfolding resolve_deletion
resolve_deletion-Purged os epoll laws D s g t c k m =
    each_fd-Purged os epoll laws D s g s.next_deletion t c k m
