-- ===== src/Server/Channel/Departures.antt =====
-- What `Channel::resolve_deletion` does to the marked connections (src/server/channel.cpp).
use cpp_chat_channel.Base.{
  ◌≡◌, refl, sym, ap, ◌∙◌, none, some, List, [], ◌∷◌, ◌++◌, arith, int_eq, if◌then◌else◌, Bytes,
  codes, All,
}
use mathlib.Core.List.{append-nil, append_assoc}
use cpp_chat_channel.Base.Assoc.{contains, lookup, erase_key, lookup-erase_key}
use cpp_chat_channel.Effects.{Outcome, ok, throw, hangs, bind_outcome}
use cpp_chat_channel.Os.{Fd, Os}
use cpp_chat_channel.Json.{Jansson}
use cpp_chat_channel.Dto.{system}
use cpp_chat_channel.Queue.{push}
use cpp_chat_channel.Comm.Buffers.{Communication, clear_buffer}
use cpp_chat_channel.Tracker.{Tracker, delete_client}
use cpp_chat_channel.Tracker.Delete.{Deletes, refused, unregistered, deleted, delete_client-Deletes}
use cpp_chat_channel.Server.{Globals, Server, State}
use cpp_chat_channel.Server.Users.{get_user_name, remove_user_name}
use cpp_chat_channel.Server.Base.{each_fd, try_delete, close_fd, clear_fd}
use cpp_chat_channel.Server.Base.Deletion.{at}
use cpp_chat_channel.Server.Chat.{Chat, Message, forget_name}
use cpp_chat_channel.Server.Chat.Deletion.{named}
use cpp_chat_channel.Server.Channel.{
  Room, system_message, announce_leave, enqueue, delete_member, resolve_deletion,
}
use cpp_chat_channel.Server.Channel.Steps.{inside, senders}

abbrev pub IsLeave : Message → Type 0
IsLeave m = (m.1.type ≡ system) × (m.1.text ≡ codes "leave")

-- The name that a leave is announced under.
abbrev name_of : Fd → List (Fd × Bytes) → Bytes
name_of fd names = elim (lookup fd names) [ none ↦ codes "unknown" | some n ↦ n ]

module _ (os : Os) (jansson : Jansson) (s : Server (Chat Room)) (g : Globals os.Kernel) where
  abbrev announcement : Fd → os.Kernel → List (Fd × Bytes) → Message
  announcement fd k names = (
    fd,
    system_message (codes "leave") (os.system_ms k).0 (name_of fd names) s.derived.more.channel_id,
  )

  -- What is done when the tracker has answered, whatever it said.
  after_delete :
      Fd
      → Communication
      → List (Fd × Bytes)
      → List Message
      → Outcome (Unit {0}) × (Tracker × os.Kernel)
      → Outcome (Unit {0}) × State os.Kernel (Chat Room)
  after_delete fd c names items (hangs, (t, k)) =
      (hangs, (inside (at s t c) t items, named g k names))
  after_delete fd c names items (ok _, (t, k)) = (
    ok tt,
    (inside (at s t (clear_buffer fd c)) t items, named g (os.close fd k) (erase_key fd names)),
  )
  after_delete fd c names items (throw e, (t, k)) = (
    ok tt,
    (inside (at s t (clear_buffer fd c)) t items, named g (os.close fd k) (erase_key fd names)),
  )

  delete_member_lem :
      (fd : Fd) (t : Tracker) (c : Communication) (k : os.Kernel) (names : List (Fd × Bytes))
      (items : List Message)
      → delete_member os jansson fd (inside (at s t c) t items, named g k names)
        ≡ after_delete fd c names
            (items ++ announcement fd k names ∷ [])
            (delete_client os g.listener fd (t, (os.system_ms k).1))
  unfolding delete_member announce_leave enqueue try_delete forget_name close_fd clear_fd
      after_delete remove_user_name get_user_name push
  delete_member_lem fd t c k names items = ground arith

  -- The tracker always answers.
  after_delete_returns :
      (fd : Fd) (c : Communication) (names : List (Fd × Bytes)) (items : List Message) (t : Tracker)
      (k : os.Kernel) (r : Outcome (Unit {0}) × (Tracker × os.Kernel))
      → Deletes os g.listener fd t k r
      → after_delete fd c names items r ≡ (
        ok tt,
        (
          inside (at s r.1.0 (clear_buffer fd c)) r.1.0 items,
          named g (os.close fd r.1.1) (erase_key fd names),
        ),
      )
  unfolding after_delete
  after_delete_returns fd c names items t k _ (refused e h) = refl
  after_delete_returns fd c names items t k _ (unregistered k' e) = refl
  after_delete_returns fd c names items t k _ (deleted k' apart e) = refl

  each_fd_step :
      (fd : Fd) (fds : List Fd) (a b : State os.Kernel (Chat Room))
      {r : Outcome (Unit {0}) × State os.Kernel (Chat Room)}
      → delete_member os jansson fd a ≡ (ok tt, b)
      → each_fd os (Chat Room) (delete_member os jansson) fds b ≡ r
      → each_fd os (Chat Room) (delete_member os jansson) (fd ∷ fds) a ≡ r
  unfolding each_fd
  each_fd_step fd fds a b p q =
      ap (λ x. bind_outcome x (λ _. each_fd os (Chat Room) (delete_member os jansson) fds)) p ∙ q

  names_step :
      (fd x : Fd) (fds : List Fd) (names names' : List (Fd × Bytes))
      → lookup x names' ≡ (if contains x fds then none else lookup x (erase_key fd names))
      → lookup x names' ≡ (if contains x (fd ∷ fds) then none else lookup x names)
  unfolding contains
  names_step fd x fds names names' h = ground (arith, h, lookup-erase_key fd x names)

  each-departure :
      (fds : List Fd) (t : Tracker) (c : Communication) (k : os.Kernel) (names : List (Fd × Bytes))
      (items : List Message)
      → (t' : Tracker) × (c' : Communication) × (k' : os.Kernel) × (names' : List (Fd × Bytes))
        × (news : List Message) × (each_fd os
              (Chat Room)
              (delete_member os jansson)
              fds
              (inside (at s t c) t items, named g k names)
            ≡ (ok tt, (inside (at s t' c') t' (items ++ news), named g k' names')))
        × (senders news ≡ fds)
        × All IsLeave news
        × ((x : Fd) → lookup x names' ≡ (if contains x fds then none else lookup x names))
  each-departure [] t c k names items = (
    t,
    c,
    k,
    names,
    [],
    unfold each_fd in
        ap (λ ms. (ok tt, (inside (at s t c) t ms, named g k names))) (sym (append-nil items)),
    refl,
    tt,
    λ x. unfold contains in refl,
  )
  each-departure (fd ∷ fds) t c k names items =
      let k1 = (os.system_ms k).1 in
      let m = announcement fd k names in
      let r = delete_client os g.listener fd (t, k1) in
      let (t', c', k', names', news, e, p, a, f) =
        each-departure fds r.1.0 (clear_buffer fd c) (os.close fd r.1.1) (erase_key fd names)
          (items ++ m ∷ []) in
      (
        t',
        c',
        k',
        names',
        m ∷ news,
        each_fd_step fd fds _ _
            (delete_member_lem fd t c k names items
              ∙ after_delete_returns fd c names (items ++ m ∷ []) t k1 r
                  (delete_client-Deletes os g.listener fd t k1))
            (e
              ∙ ap (λ ms. (ok tt, (inside (at s t' c') t' ms, named g k' names')))
                  (append_assoc items (m ∷ []) news)),
        ap (◌∷◌ fd) p,
        ((refl, refl), a),
        λ x. names_step fd x fds names names' (f x),
      )

  -- A room's `resolve_deletion` returns, whether the tracker had the marked connections or not. It
  -- puts one leave message for each of them into the queue, in their order, and exactly their names
  -- are forgotten.
  pub resolve_deletion-IsLeave :
      (t : Tracker) (c : Communication) (k : os.Kernel) (names : List (Fd × Bytes))
      (items : List Message)
      → (t' : Tracker) × (c' : Communication) × (k' : os.Kernel) × (names' : List (Fd × Bytes))
        × (news : List Message) × (resolve_deletion os jansson
              (inside (at s t c) t items, named g k names)
            ≡ (ok tt, (inside (at s t' c') t' (items ++ news), named g k' names')))
        × (senders news ≡ s.next_deletion)
        × All IsLeave news
        × ((x : Fd)
            → lookup x names' ≡ (if contains x s.next_deletion then none else lookup x names))
  unfolding resolve_deletion
  resolve_deletion-IsLeave t c k names items = each-departure s.next_deletion t c k names items
