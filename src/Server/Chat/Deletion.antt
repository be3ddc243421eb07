-- ===== src/Server/Chat/Deletion.antt =====
-- What `ChatServer::resolve_deletion` does to the marked connections and their names
-- (src/server/chat_server.cpp).
use cpp_chat_channel.Base.{
  ◌≡◌, refl, ap, ◌∙◌, inl, inr, none, List, [], ◌∷◌, true, false, ◌&&◌, arith, ==_iff, int_eq,
  if◌then◌else◌, Bool-cases, Bytes,
}
use cpp_chat_channel.Base.Assoc.{
  contains, remove, lookup, erase_key, contains-remove, lookup-erase_key,
}
use cpp_chat_channel.Effects.{Outcome, ok, throw, hangs, bind_outcome}
use cpp_chat_channel.Os.{Fd, Os}
use cpp_chat_channel.Os.Laws.{EpollLaws, CloseLaws}
use cpp_chat_channel.Json.{Jansson}
use cpp_chat_channel.Comm.Buffers.{Communication, clear_buffer}
use cpp_chat_channel.Tracker.{Tracker, delete_client}
use cpp_chat_channel.Tracker.Mirror.{IsMirror}
use cpp_chat_channel.Tracker.Delete.{delete_member, delete_other}
use cpp_chat_channel.Server.{Globals, Server, State}
use cpp_chat_channel.Server.Users.{remove_user_name}
use cpp_chat_channel.Server.Base.{each_fd}
use cpp_chat_channel.Server.Base.Deletion.{at}
use cpp_chat_channel.Server.Base.Purged.{
  Purged, Purged-nil, Purged-member, Purged-other, member-IsMirror, other-kernel,
}
use cpp_chat_channel.Server.Chat.{Chat, delete_user, resolve_deletion}

-- The shared state with another kernel and other names.
abbrev pub named : {K : Type 0} → Globals K → K → List (Fd × Bytes) → Globals K
named g k names = record g { kernel = k; name_map = names }

-- The names after the connections `fds` are resolved: those of deleted clients are gone.
abbrev pub IsForgotten : List Fd → List Fd → List (Fd × Bytes) → List (Fd × Bytes) → Type 0
IsForgotten fds clients names names' =
    (x : Fd)
    → lookup x names' ≡ (if contains x clients && contains x fds then none else lookup x names)

module _ (os : Os) (jansson : Jansson) (E : Type 0) (s : Server (Chat E))
    (g : Globals os.Kernel) where
  -- What is done when the tracker has answered.
  after_delete :
      Fd
      → Communication
      → List (Fd × Bytes)
      → Outcome (Unit {0}) × (Tracker × os.Kernel)
      → Outcome (Unit {0}) × State os.Kernel (Chat E)
  after_delete fd c names (ok _, (t, k)) =
      (ok tt, (at s t (clear_buffer fd c), named g (os.close fd k) (erase_key fd names)))
  after_delete fd c names (throw e, (t, k)) = (ok tt, (at s t c, named g k names))
  after_delete fd c names (hangs, (t, k)) = (hangs, (at s t c, named g k names))

  delete_user_lem :
      (fd : Fd) (t : Tracker) (c : Communication) (k : os.Kernel) (names : List (Fd × Bytes))
      → delete_user os jansson E fd (at s t c, named g k names)
        ≡ after_delete fd c names (delete_client os g.listener fd (t, k))
  unfolding delete_user after_delete remove_user_name
  delete_user_lem fd t c k names = ground arith

  each_fd_step :
      (fd : Fd) (fds : List Fd) (a b : State os.Kernel (Chat E))
      {r : Outcome (Unit {0}) × State os.Kernel (Chat E)}
      → delete_user os jansson E fd a ≡ (ok tt, b)
      → each_fd os (Chat E) (delete_user os jansson E) fds b ≡ r
      → each_fd os (Chat E) (delete_user os jansson E) (fd ∷ fds) a ≡ r
  unfolding each_fd
  each_fd_step fd fds a b p q =
      ap (λ x. bind_outcome x (λ _. each_fd os (Chat E) (delete_user os jansson E) fds)) p ∙ q

IsForgotten-member :
    (fd : Fd) (fds clients : List Fd) (names names' : List (Fd × Bytes))
    → contains fd clients ≡ true
    → IsForgotten fds (remove fd clients) (erase_key fd names) names'
    → IsForgotten (fd ∷ fds) clients names names'
unfolding contains
IsForgotten-member fd fds clients names names' m f x =
    ground (arith, f x, lookup-erase_key fd x names, contains-remove fd x clients, m, ==_iff fd x)

IsForgotten-other :
    (fd : Fd) (fds clients : List Fd) (names names' : List (Fd × Bytes))
    → contains fd clients ≡ false
    → IsForgotten fds clients names names'
    → IsForgotten (fd ∷ fds) clients names names'
unfolding contains
IsForgotten-other fd fds clients names names' m f x = ground (arith, f x, m, ==_iff fd x)

module _ (os : Os) (epoll : EpollLaws os) (laws : CloseLaws os epoll) (jansson : Jansson)
    (E : Type 0) (s : Server (Chat E)) (g : Globals os.Kernel) where
  -- The loop returns, purges what it is given and forgets the names.
  abbrev Resolves : List Fd → Tracker → Communication → os.Kernel → List (Fd × Bytes) → Type 0
  Resolves fds t c k names =
      (t' : Tracker) × (c' : Communication) × (k' : os.Kernel) × (names' : List (Fd × Bytes))
      × (each_fd os (Chat E) (delete_user os jansson E) fds (at s t c, named g k names)
          ≡ (ok tt, (at s t' c', named g k' names')))
      × IsForgotten fds t.clients names names'
      × Purged os epoll laws g.listener fds t c k t' c' k'

  each_fd-Purged :
      (fds : List Fd) (t : Tracker) (c : Communication) (k : os.Kernel) (names : List (Fd × Bytes))
      → IsMirror os epoll g.listener (t, k)
      → Resolves fds t c k names
  unfolding after_delete
  each_fd-Purged [] t c k names m = (
    t,
    c,
    k,
    names,
    unfold each_fd in refl,
    λ x. unfold contains in ground arith,
    Purged-nil os epoll laws g.listener t c k m,
  )
  each_fd-Purged (fd ∷ fds) t c k names m = elim (Bool-cases (contains fd t.clients)) [
    | inl member ↦
        let t1 = record t { clients = remove fd t.clients } in
        let k1 = os.close fd (os.epoll_del t.efd fd k).1 in
        let (t', c', k', names', e, f, p) =
          each_fd-Purged fds t1 (clear_buffer fd c) k1 (erase_key fd names)
            (member-IsMirror os epoll laws g.listener fd t k member m) in
        (
          t',
          c',
          k',
          names',
          each_fd_step os jansson E s g fd fds _ _
              (delete_user_lem os jansson E s g fd t c k names
                ∙ ap (after_delete os jansson E s g fd c names)
                    (delete_member os epoll g.listener fd t k m member))
              e,
          IsForgotten-member fd fds t.clients names names' member f,
          Purged-member os epoll laws g.listener fd fds t t' c c' k k' member p,
        )
    | inr absent ↦
        let (x, k1, thrown, how) = delete_other os epoll g.listener fd t k m absent in
        let (m1, same) = other-kernel os epoll laws g.listener fd t k k1 how m in
        let (t', c', k', names', e, f, p) = each_fd-Purged fds t c k1 names m1 in
        (
          t',
          c',
          k',
          names',
          each_fd_step os jansson E s g fd fds _ _
              (delete_user_lem os jansson E s g fd t c k names
                ∙ ap (after_delete os jansson E s g fd c names) thrown)
              e,
          IsForgotten-other fd fds t.clients names names' absent f,
          Purged-other os epoll laws g.listener fd fds t t' c c' k k' k1 absent same p,
        )
  ]

  -- A chat server's `resolve_deletion` returns. It deletes, closes and clears the marked clients as
  -- that of `ServerBase` does, and the names of exactly these connections are forgotten.
  pub resolve_deletion-IsForgotten :
      (t : Tracker) (c : Communication) (k : os.Kernel) (names : List (Fd × Bytes))
      → IsMirror os epoll g.listener (t, k)
      → (t' : Tracker) × (c' : Communication) × (k' : os.Kernel) × (names' : List (Fd × Bytes))
        × (resolve_deletion os jansson E (at s t c, named g k names)
            ≡ (ok tt, (at s t' c', named g k' names')))
        × IsForgotten s.next_deletion t.clients names names'
        × Purged os epoll laws g.listener s.next_deletion t c k t' c' k'
  unfolding resolve_deletion
  resolve_deletion-IsForgotten t c k names m = each_fd-Purged s.next_deletion t c k names m
