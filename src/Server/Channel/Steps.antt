-- ===== src/Server/Channel/Steps.antt =====
-- The entries of a room's pools, one after another (`Channel::resolve_pool`, src/server/channel.cpp).
use cpp_chat_channel.Base.{
  ◌≡◌, refl, sym, ap, ◌∙◌, some, List, [], ◌∷◌, ◌++◌, not, ◌&&◌, ◌||◌, arith, int_eq, nat_eq,
}
use mathlib.Core.List.{append-nil, append_assoc}
use cpp_chat_channel.Base.Assoc.{contains, contains-add, contains-remove}
use cpp_chat_channel.Effects.{Outcome, ok, throw, hangs, bind_outcome}
use cpp_chat_channel.Os.{Fd, Os}
use cpp_chat_channel.Os.Laws.{EpollLaws}
use cpp_chat_channel.Queue.{push}
use cpp_chat_channel.Tracker.{Tracker, add_client, delete_client}
use cpp_chat_channel.Tracker.Mirror.{IsMirror}
use cpp_chat_channel.Tracker.Add.{
  Adds, refused, unregistered, added, add_client-Adds, add_client-IsMirror,
}
use cpp_chat_channel.Tracker.Delete.{
  Deletes, deleted, delete_client-Deletes, delete_client-IsMirror,
}
use cpp_chat_channel.Tracker.Delete.{refused as not_deletable, unregistered as not_registered}
use cpp_chat_channel.Server.{Globals, Server, State}
use cpp_chat_channel.Server.Base.Deletion.{kern}
use cpp_chat_channel.Server.Chat.{Chat, Message}
use cpp_chat_channel.Server.Channel.{Room}
use cpp_chat_channel.Server.Channel.Worker.{join_one, leave_one, each_message}

-- A room with its tracker and the items of its queue.
abbrev pub inside : Server (Chat Room) → Tracker → List Message → Server (Chat Room)
inside s t items = record s {
  con_tracker = some t;
  derived = record (s.derived) { mq = record (s.derived.mq) { items = items } };
}

abbrev pub senders : List Message → List Fd
senders [] = []
senders (m ∷ ms) = m.0 ∷ senders ms

-- Some entries of a pool, in its order.
pub data IsPick : List Message → List Message → Type 0 where
  no_entry : IsPick [] []
  passed :
      (item : Message) (pool done : List Message) → IsPick pool done → IsPick (item ∷ pool) done
  taken :
      (item : Message) (pool done : List Message)
      → IsPick pool done
      → IsPick (item ∷ pool) (item ∷ done)

module _ (os : Os) (s : Server (Chat Room)) (g : Globals os.Kernel) where
  -- What is done when the tracker has answered.
  after_answer :
      Message
      → List Message
      → Outcome (Unit {0}) × (Tracker × os.Kernel)
      → Outcome (Unit {0}) × State os.Kernel (Chat Room)
  after_answer item items (ok _, (t, k)) = (ok tt, (inside s t (items ++ item ∷ []), kern g k))
  after_answer item items (throw e, (t, k)) = (ok tt, (inside s t items, kern g k))
  after_answer item items (hangs, (t, k)) = (hangs, (inside s t items, kern g k))

  join_one_lem :
      (item : Message) (t : Tracker) (items : List Message) (k : os.Kernel)
      → join_one os item (inside s t items, kern g k)
        ≡ after_answer item items (add_client os g.listener item.0 (t, k))
  unfolding join_one after_answer push
  join_one_lem item t items k = ground arith

  leave_one_lem :
      (item : Message) (t : Tracker) (items : List Message) (k : os.Kernel)
      → leave_one os item (inside s t items, kern g k)
        ≡ after_answer item items (delete_client os g.listener item.0 (t, k))
  unfolding leave_one after_answer push
  leave_one_lem item t items k = ground arith

  each_step :
      (body : Message
        → State os.Kernel (Chat Room)
        → Outcome (Unit {0}) × State os.Kernel (Chat Room))
      (item : Message) (rest : List Message) (a b : State os.Kernel (Chat Room))
      {r : Outcome (Unit {0}) × State os.Kernel (Chat Room)}
      → body item a ≡ (ok tt, b)
      → each_message os body rest b ≡ r
      → each_message os body (item ∷ rest) a ≡ r
  unfolding each_message
  each_step body item rest a b p q = ap (λ x. bind_outcome x (λ _. each_message os body rest)) p ∙ q

  -- One entry's join: it is announced and its connection is a client, or neither is changed.
  join_cases :
      (item : Message) (t : Tracker) (items : List Message) (k : os.Kernel)
      (r : Outcome (Unit {0}) × (Tracker × os.Kernel))
      → Adds os g.listener item.0 t k r
      → (done : List Message) × (after_answer item items r
          ≡ (ok tt, (inside s r.1.0 (items ++ done), kern g r.1.1)))
        × ((x : Fd)
            → contains x r.1.0.clients ≡ (contains x t.clients || contains x (senders done)))
        × ((pool later : List Message) → IsPick pool later → IsPick (item ∷ pool) (done ++ later))
  unfolding after_answer contains
  join_cases item t items k _ (refused e h) = (
    [],
    ap (λ ms. (ok tt, (inside s t ms, kern g k))) (sym (append-nil items)),
    λ x. ground arith,
    λ pool later p. passed item pool later p,
  )
  join_cases item t items k _ (unregistered k' e) = (
    [],
    ap (λ ms. (ok tt, (inside s t ms, kern g k'))) (sym (append-nil items)),
    λ x. ground arith,
    λ pool later p. passed item pool later p,
  )
  join_cases item t items k _ (added k' valid apart room e) = (
    item ∷ [],
    refl,
    λ x. ground (arith, contains-add item.0 x t.clients),
    λ pool later p. taken item pool later p,
  )

  leave_cases :
      (item : Message) (t : Tracker) (items : List Message) (k : os.Kernel)
      (r : Outcome (Unit {0}) × (Tracker × os.Kernel))
      → Deletes os g.listener item.0 t k r
      → (done : List Message) × (after_answer item items r
          ≡ (ok tt, (inside s r.1.0 (items ++ done), kern g r.1.1)))
        × ((x : Fd)
            → contains x r.1.0.clients ≡ (contains x t.clients && not (contains x (senders done))))
        × ((pool later : List Message) → IsPick pool later → IsPick (item ∷ pool) (done ++ later))
  unfolding after_answer contains
  leave_cases item t items k _ (not_deletable e h) = (
    [],
    ap (λ ms. (ok tt, (inside s t ms, kern g k))) (sym (append-nil items)),
    λ x. ground arith,
    λ pool later p. passed item pool later p,
  )
  leave_cases item t items k _ (not_registered k' e) = (
    [],
    ap (λ ms. (ok tt, (inside s t ms, kern g k'))) (sym (append-nil items)),
    λ x. ground arith,
    λ pool later p. passed item pool later p,
  )
  leave_cases item t items k _ (deleted k' apart e) = (
    item ∷ [],
    refl,
    λ x. ground (arith, contains-remove item.0 x t.clients),
    λ pool later p. taken item pool later p,
  )

contains-senders :
    (x : Fd) (ms ns : List Message)
    → contains x (senders (ms ++ ns)) ≡ (contains x (senders ms) || contains x (senders ns))
unfolding contains
contains-senders x [] ns = ground arith
contains-senders x (m ∷ ms) ns = ground (arith, contains-senders x ms ns)

module _ (os : Os) (epoll : EpollLaws os) (s : Server (Chat Room)) (g : Globals os.Kernel) where
  -- The joins of a pool.
  pub each-join :
      (pool : List Message) (t : Tracker) (items : List Message) (k : os.Kernel)
      → IsMirror os epoll g.listener (t, k)
      → (t' : Tracker) × (k' : os.Kernel) × (done : List Message) × (each_message os
            (join_one os)
            pool
            (inside s t items, kern g k)
          ≡ (ok tt, (inside s t' (items ++ done), kern g k')))
        × ((x : Fd) → contains x t'.clients ≡ (contains x t.clients || contains x (senders done)))
        × IsPick pool done
        × IsMirror os epoll g.listener (t', k')
  each-join [] t items k m = (
    t,
    k,
    [],
    unfold each_message in ap (λ ms. (ok tt, (inside s t ms, kern g k))) (sym (append-nil items)),
    λ x. unfold contains in ground arith,
    no_entry,
    m,
  )
  each-join (item ∷ pool) t items k m =
      let (one, p, f, pick) =
        join_cases os s g item t items k _ (add_client-Adds os g.listener item.0 t k) in
      let r = add_client os g.listener item.0 (t, k) in
      let (t', k', later, e, f', picked, m') =
        each-join pool r.1.0 (items ++ one) r.1.1
          (add_client-IsMirror os epoll g.listener item.0 (t, k) m) in
      (
        t',
        k',
        one ++ later,
        each_step os s g (join_one os) item pool _ _ (join_one_lem os s g item t items k ∙ p)
            (e ∙ ap (λ ms. (ok tt, (inside s t' ms, kern g k'))) (append_assoc items one later)),
        λ x. ground (arith, f' x, f x, contains-senders x one later),
        pick pool later picked,
        m',
      )

  -- The leaves of a pool.
  pub each-leave :
      (pool : List Message) (t : Tracker) (items : List Message) (k : os.Kernel)
      → IsMirror os epoll g.listener (t, k)
      → (t' : Tracker) × (k' : os.Kernel) × (done : List Message) × (each_message os
            (leave_one os)
            pool
            (inside s t items, kern g k)
          ≡ (ok tt, (inside s t' (items ++ done), kern g k')))
        × ((x : Fd)
            → contains x t'.clients ≡ (contains x t.clients && not (contains x (senders done))))
        × IsPick pool done
        × IsMirror os epoll g.listener (t', k')
  each-leave [] t items k m = (
    t,
    k,
    [],
    unfold each_message in ap (λ ms. (ok tt, (inside s t ms, kern g k))) (sym (append-nil items)),
    λ x. unfold contains in ground arith,
    no_entry,
    m,
  )
  each-leave (item ∷ pool) t items k m =
      let (one, p, f, pick) =
        leave_cases os s g item t items k _ (delete_client-Deletes os g.listener item.0 t k) in
      let r = delete_client os g.listener item.0 (t, k) in
      let (t', k', later, e, f', picked, m') =
        each-leave pool r.1.0 (items ++ one) r.1.1
          (delete_client-IsMirror os epoll g.listener item.0 (t, k) m) in
      (
        t',
        k',
        one ++ later,
        each_step os s g (leave_one os) item pool _ _ (leave_one_lem os s g item t items k ∙ p)
            (e ∙ ap (λ ms. (ok tt, (inside s t' ms, kern g k'))) (append_assoc items one later)),
        λ x. ground (arith, f' x, f x, contains-senders x one later),
        pick pool later picked,
        m',
      )
