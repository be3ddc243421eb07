-- ===== src/Server/Lobby/Release/Reach.antt =====
-- The states that the lobby and the workers of its channels reach (src/server/channel_server.cpp,
-- src/server/channel.cpp).
use cpp_chat_channel.Base.{
  ℕ, ◌≡◌, refl, ◌∙◌, subst, none, some, List, [], ◌∷◌, false, nat_eq, Bytes, Option-cases, inl, inr,
}
use cpp_chat_channel.Base.Assoc.{lookup, IsDistinct}
use cpp_chat_channel.Effects.{ok}
use cpp_chat_channel.Os.{Fd, Os, Event}
use cpp_chat_channel.Json.{Jansson}
use cpp_chat_channel.Server.{Server, State}
use cpp_chat_channel.Server.Base.{Method, each_event}
use cpp_chat_channel.Server.Base.Kept.{Keeps}
use cpp_chat_channel.Queue.{Queue, push}
use cpp_chat_channel.Server.Chat.{Chat, resolve_messages}
use cpp_chat_channel.Server.Channel as Rooms
use cpp_chat_channel.Server.Channel.{Room, with_room}
use cpp_chat_channel.Server.Channel.Worker.{resolve_pool}
use cpp_chat_channel.Server.Lobby.{
  Lobby, keys, Channel, Report, room_hooks, with_lobby, put_channel, on_channel, lock_pool,
}
use cpp_chat_channel.Server.Lobby.Handlers.{on_accept, resolve_deletion, on_req, consume_report}
use cpp_chat_channel.Server.Lobby.Upkeep.{upkeep}
use cpp_chat_channel.Server.Lobby.Calls.{is_locked, locked, lock_pool_free}
use cpp_chat_channel.Server.Lobby.Kept.{
  lock_of, resolve_pool-Keeps, room_deletion-Keeps, resolve_messages-Keeps, events-Keeps,
}
use cpp_chat_channel.Server.Lobby.Locks.{LockedAt, Post, Ends, on_channel-Ends, insert-LockedAt}
use cpp_chat_channel.Server.Lobby.Locks.Calls.{lock_after}
use cpp_chat_channel.Server.Lobby.Choice.{AllFree}
use cpp_chat_channel.Server.Lobby.Release.{
  kept-Ends, on_accept-Keeps, resolve_deletion-Keeps, on_req-Ends, consume_report-Ends, upkeep-Ends,
}

module _ (os : Os) (jansson : Jansson) (reads : ℕ) where
  -- A call of a room's method that leaves its lock.
  room-Ends :
      (id : ℕ) (m : Method os (Chat Room) (Unit {0}))
      → Keeps os lock_of m
      → Ends os (on_channel os id m) none (λ _. none)
  room-Ends id m k =
      on_channel-Ends os none none id m (λ j e. refl) (λ t e. lock_after os false (m t) (k t ∙ e))

  abbrev push_all : List Report → Queue Report → Queue Report
  push_all [] q = q
  push_all (req ∷ reqs) q = push_all reqs (push req q)

  abbrev emptied : Channel os.Kernel → Channel os.Kernel
  emptied ch = (ch.0, with_room ch.1 (record (ch.1.derived.more) { reported = [] }))

  abbrev with_reports : Server (Lobby os.Kernel) → List Report → Server (Lobby os.Kernel)
  with_reports s reqs =
      with_lobby s (record (s.derived) { reports = push_all reqs s.derived.reports })

  -- What a room has reported reaches the lobby's queue.
  unfoldable hand_in : ℕ → Method os (Lobby os.Kernel) (Unit {0})
  hand_in id (s, g) = elim (lookup id s.derived.channels) [
    | none ↦ (ok tt, (s, g))
    | some ch ↦
        (ok tt, (put_channel (with_reports s ch.1.derived.more.reported) id (emptied ch), g))
  ]

  hand_in-Ends : (id : ℕ) → Ends os (hand_in id) none (λ _. none)
  unfolding hand_in
  hand_in-Ends id (s, g) h = elim (Option-cases (lookup id s.derived.channels)) [
    | inl e ↦ rw (e, hand_in) h
    | inr (ch, e) ↦
        rw (e, hand_in)
          (insert-LockedAt os none none id (emptied ch) (with_reports s ch.1.derived.more.reported)
            h (λ j differ. refl) (h.0 id ch e))
  ]

  -- What the lobby does, and what the worker of a room does in a round: its pools, its messages, the
  -- events of its clients with all their requests, and its deletions. What a room reports in these
  -- is handed in to the lobby's queue.
  pub data Call : Type 0 where
    accept : Fd → Call
    request : Fd → Bytes → jansson.Json → Call
    reports : Call
    deletions : Call
    second : Call
    room_pools : ℕ → Call
    room_messages : ℕ → Call
    room_events : ℕ → List Event → Call
    room_deletions : ℕ → Call
    room_reports : ℕ → Call

  unfoldable pub perform : Call → Method os (Lobby os.Kernel) (Unit {0})
  unfolding hand_in
  perform (accept fd) = on_accept os fd
  perform (request fd target root) = on_req os jansson reads fd target root
  perform reports = consume_report os jansson reads
  perform deletions = resolve_deletion os
  perform second = upkeep os
  perform (room_pools id) = on_channel os id (resolve_pool os)
  perform (room_messages id) = on_channel os id (resolve_messages os jansson Room)
  perform (room_events id evs) =
      on_channel os id (each_event os (Chat Room) (room_hooks os jansson reads) evs)
  perform (room_deletions id) = on_channel os id (Rooms.resolve_deletion os jansson)
  perform (room_reports id) = hand_in id

  perform-Ends : (c : Call) → Ends os (perform c) none (λ _. none)
  unfolding perform
  perform-Ends (accept fd) = kept-Ends os none (on_accept os fd) (on_accept-Keeps os fd)
  perform-Ends (request fd target root) = on_req-Ends os jansson reads fd target root
  perform-Ends reports = consume_report-Ends os jansson reads
  perform-Ends deletions = kept-Ends os none (resolve_deletion os) (resolve_deletion-Keeps os)
  perform-Ends second = upkeep-Ends os
  perform-Ends (room_pools id) = room-Ends id (resolve_pool os) (resolve_pool-Keeps os)
  perform-Ends (room_messages id) =
      room-Ends id (resolve_messages os jansson Room) (resolve_messages-Keeps os jansson)
  perform-Ends (room_events id evs) =
      room-Ends id (each_event os (Chat Room) (room_hooks os jansson reads) evs)
        (events-Keeps os jansson reads evs)
  perform-Ends (room_deletions id) =
      room-Ends id (Rooms.resolve_deletion os jansson) (room_deletion-Keeps os jansson)
  perform-Ends (room_reports id) = hand_in-Ends id

  -- The states that calls lead to, one after the other in any order, where each returns.
  pub data Reach (s : State os.Kernel (Lobby os.Kernel))
      : State os.Kernel (Lobby os.Kernel) → Type 0 where
    here : Reach s s
    after :
        (c : Call) {t u : State os.Kernel (Lobby os.Kernel)}
        → Reach s t
        → perform c t ≡ (ok tt, u)
        → Reach s u

  Reach-LockedAt :
      (s t : State os.Kernel (Lobby os.Kernel)) → LockedAt none s.0 → Reach s t → LockedAt none t.0
  Reach-LockedAt s t h here = h
  Reach-LockedAt s u h (after c {t} r e) =
      subst (Post (λ _. none)) e (perform-Ends c t (Reach-LockedAt s t h r))

  -- From a lobby with channels of distinct numbers of which none is locked, after any sequence of
  -- calls that all return, no channel is locked, so that the next call that locks a channel's pools
  -- returns at once. The calls are the lobby's accepted connections, requests, rounds of reports,
  -- deletions and timed tasks, and, for the worker of any room, `resolve_pool`, its messages and
  -- broadcast, the events of its clients, its deletions, and the passing of its reports to the lobby.
  pub Reach-AllFree :
      (s t : State os.Kernel (Lobby os.Kernel)) (id : ℕ) (ch : Channel os.Kernel)
      → AllFree s.0
      → IsDistinct (keys s.0.derived.channels)
      → Reach s t
      → lookup id t.0.derived.channels ≡ some ch
      → (is_locked ch ≡ false)
        × (lock_pool os id t ≡ (ok tt, (put_channel t.0 id (locked ch), t.1)))
  Reach-AllFree s t id ch h d r e =
      let free = (Reach-LockedAt s t (h, d) r).0 id ch e in
      (free, lock_pool_free os t.0 t.1 id ch e free)
