-- ===== src/Server/Channel/Pool.antt =====
-- What `Channel::resolve_pool` does to a room's clients (src/server/channel.cpp).
use cpp_chat_channel.Base.{
  ◌≡◌, refl, ap, ◌∙◌, inl, inr, List, [], ◌++◌, Bool, true, false, not, ◌&&◌, ◌||◌, arith, ◌==◌,
  int_eq, nat_eq, length, if◌then◌else◌, Bool-cases,
}
use cpp_chat_channel.Base.Assoc.{contains}
use cpp_chat_channel.Effects.{Outcome, ok, M, ◌>>◌, bind_outcome}
use cpp_chat_channel.Os.{Fd, Os}
use cpp_chat_channel.Os.Laws.{EpollLaws, ClockLaws}
use cpp_chat_channel.Tracker.{Tracker, get_client_count}
use cpp_chat_channel.Tracker.Mirror.{IsMirror, IsMirror-kernel}
use cpp_chat_channel.Server.{Globals, Server}
use cpp_chat_channel.Server.Base.Deletion.{kern}
use cpp_chat_channel.Server.Chat.{Chat, Message}
use cpp_chat_channel.Server.Channel.{Room, with_room}
use cpp_chat_channel.Server.Channel.Worker.{
  join_one, leave_one, each_message, stop_if_empty, resolve_pool,
}
use cpp_chat_channel.Server.Channel.Steps.{inside, senders, IsPick, each-join, each-leave}

if-false : {A : Type 0} (b : Bool) (x y : A) → b ≡ false → (if b then x else y) ≡ y
if-false b x y h = rw h

three_steps :
    {S : Type 0} (a b c : M S (Unit {0})) (s0 s1 s2 : S) {r : Outcome (Unit {0}) × S}
    → a s0 ≡ (ok tt, s1)
    → b s1 ≡ (ok tt, s2)
    → c s2 ≡ r
    → (a >> b >> c) s0 ≡ r
three_steps a b c s0 s1 s2 p q h =
    ap (λ x. bind_outcome (bind_outcome x (λ _. b)) (λ _. c)) p
    ∙ ap (λ x. bind_outcome x (λ _. c)) q
    ∙ h

-- The room after the test of its clients.
stop_if_empty_lem :
    (os : Os) (epoll : EpollLaws os) (clock : ClockLaws os epoll) (s : Server (Chat Room))
    (g : Globals os.Kernel) (t : Tracker) (items : List Message) (k : os.Kernel)
    → s.derived.more.join_pool ≡ []
    → s.derived.more.leave_pool ≡ []
    → IsMirror os epoll g.listener (t, k)
    → (room : Room) × (k' : os.Kernel) × (stop_if_empty os (inside s t items, kern g k)
        ≡ (ok tt, (with_room (inside s t items) room, kern g k')))
      × IsMirror os epoll g.listener (t, k')
      × (room.join_pool ≡ [])
      × (room.leave_pool ≡ [])
      × (room.stop_flag ≡ (if length t.clients == 0 then true else s.derived.more.stop_flag))
unfolding stop_if_empty
stop_if_empty_lem os epoll clock s g t items k j l m = elim (Bool-cases (length t.clients == 0)) [
  | inl gone ↦ (
    record (s.derived.more) { stop_flag = true; empty_since = (os.system_ms k).0 },
    (os.system_ms k).1,
    unfold stop_if_empty get_client_count in rw (j, gone),
    IsMirror-kernel os epoll g.listener t k (os.system_ms k).1 (λ x. clock.clock_interest t.efd x k)
        m,
    j,
    l,
    rw gone refl,
  )
  | inr some_left ↦ (
    s.derived.more,
    k,
    unfold stop_if_empty get_client_count in rw (j, some_left),
    m,
    j,
    l,
    rw some_left refl,
  )
]

-- `resolve_pool` of a room whose pools no other thread holds returns with both pools empty. The
-- messages that it puts into the queue are entries of the join pool and behind them entries of the
-- leave pool, each in its order; the clients are those before and the ones announced as joined,
-- without the ones announced as left; the tracker mirrors its epoll instance; and the room stops if no
-- client is left.
pub resolve_pool_lem :
    (os : Os) (epoll : EpollLaws os) (clock : ClockLaws os epoll) (s : Server (Chat Room))
    (g : Globals os.Kernel) (t : Tracker) (items : List Message) (k : os.Kernel)
    → s.derived.more.pool_locked ≡ false
    → IsMirror os epoll g.listener (t, k)
    → (t' : Tracker) × (joined left : List Message) × (room : Room) × (k' : os.Kernel)
      × (resolve_pool os (inside s t items, kern g k)
          ≡ (ok tt, (with_room (inside s t' ((items ++ joined) ++ left)) room, kern g k')))
      × IsPick s.derived.more.join_pool joined
      × IsPick s.derived.more.leave_pool left
      × ((x : Fd)
          → contains x t'.clients ≡ (
              (contains x t.clients || contains x (senders joined))
              && not (contains x (senders left))))
      × IsMirror os epoll g.listener (t', k')
      × (room.join_pool ≡ [])
      × (room.leave_pool ≡ [])
      × (room.stop_flag ≡ (if length t'.clients == 0 then true else s.derived.more.stop_flag))
unfolding resolve_pool
resolve_pool_lem os epoll clock s g t items k free m =
    let r = s.derived.more in
    let emptied = with_room s (record r { join_pool = []; leave_pool = [] }) in
    let (t1, k1, joined, e1, f1, p1, m1) = each-join os epoll emptied g r.join_pool t items k m in
    let (t2, k2, left, e2, f2, p2, m2) =
      each-leave os epoll emptied g r.leave_pool t1 (items ++ joined) k1 m1 in
    let (room, k3, e3, m3, a, b, c) =
      stop_if_empty_lem os epoll clock emptied g t2 ((items ++ joined) ++ left) k2 refl refl m2 in
    (
      t2,
      joined,
      left,
      room,
      k3,
      (if-false _ _ _ free
          ∙ three_steps (each_message os (join_one os) r.join_pool)
              (each_message os (leave_one os) r.leave_pool) (stop_if_empty os) _ _ _ e1 e2 e3),
      p1,
      p2,
      λ x. ground (arith, f2 x, f1 x),
      m3,
      a,
      b,
      c,
    )
