-- ===== src/Server/Lobby/Handover.antt =====
-- How a connection passes from the lobby to a channel, and how it gets stuck
-- (src/server/channel_server.cpp).
use cpp_chat_channel.Base.{
  ℕ, ◌≡◌, arith, subst, none, some, true, false, ◌==◌, ==_iff, nat_eq, int_eq, if◌then◌else◌, Bytes,
  codes, Bool-cases, inl, inr,
}
use cpp_chat_channel.Base.Assoc.{contains, remove, lookup, lookup-insert, lookup-emplace}
use cpp_chat_channel.Effects.{Exn, ok, throw, hangs}
use cpp_chat_channel.Os.{Fd, Os}
use cpp_chat_channel.Os.Laws.{EpollLaws}
use cpp_chat_channel.Json.{Jansson}
use cpp_chat_channel.Tracker.{Tracker}
use cpp_chat_channel.Tracker.Mirror.{IsMirror}
use cpp_chat_channel.Tracker.Delete.{delete_member, delete_other, delete_client-IsMirror}
use cpp_chat_channel.Server.{Globals, Server}
use cpp_chat_channel.Server.Users.{set_user_name, get_user_name}
use cpp_chat_channel.Server.Base.Deletion.{kern}
use cpp_chat_channel.Server.Chat.{Chat}
use cpp_chat_channel.Server.Channel.{Room, system_message}
use cpp_chat_channel.Server.Channel.Worker.{resolve_pool}
use cpp_chat_channel.Server.Lobby.{Lobby, Channel, lock_pool, put_channel}
use cpp_chat_channel.Server.Lobby.Handlers.{Join, join_channel}
use cpp_chat_channel.Server.Lobby.Calls.{is_locked, lookup-put_channel, lock_pool_taken}
use cpp_chat_channel.Server.Lobby.Trial.{has_space}
use cpp_chat_channel.Server.Lobby.Joins.{
  left_behind, waiting, admitting, is_locked-waiting, join_channel_accepted, join_channel_refused,
}

resolve_pool_taken :
    (os : Os) (room : Server (Chat Room)) (g : Globals os.Kernel)
    → room.derived.more.pool_locked ≡ true
    → resolve_pool os (room, g) ≡ (hangs, (room, g))
unfolding resolve_pool
resolve_pool_taken os room g h = ground arith

named_after :
    {K : Type 0} (from : Fd) (name : Bytes) (g : Globals K)
    → get_user_name from (set_user_name from name g) ≡ some name
unfolding get_user_name set_user_name
named_after from name g = ground (arith, lookup-insert from from name g.name_map, ==_iff from from)

pool_after :
    {K : Type 0} (from : Fd) (req : Join) (ch : Channel K) (fd : Fd)
    → lookup fd (admitting from req ch).1.derived.more.join_pool ≡ (
        if from == fd
        then elim (lookup from ch.1.derived.more.join_pool) [
          | none ↦ some (
              system_message
                (codes "join")
                req.timestamp
                req.user_name
                ch.1.derived.more.channel_id)
          | some kept ↦ some kept
        ]
        else lookup fd ch.1.derived.more.join_pool)
pool_after from req ch fd =
    let r = ch.1.derived.more in
    let m = system_message (codes "join") req.timestamp req.user_name r.channel_id in
    elim (Bool-cases r.stop_flag) [
      | inl e ↦ rw e (lookup-emplace from fd m r.join_pool)
      | inr e ↦ rw e (lookup-emplace from fd m r.join_pool)
    ]

module _ (os : Os) (epoll : EpollLaws os) (jansson : Jansson) (reads : ℕ) (from : Fd) (req : Join)
    (s : Server (Lobby os.Kernel)) (g : Globals os.Kernel) (t : Tracker)
    (ch : Channel os.Kernel) where
  -- A join request of a client of the lobby, for a channel that is there, unlocked and has space,
  -- returns. The requested name is now the client's name. The client is in the lobby's tracker and list
  -- of acts no longer; the channel is unlocked, and an entry for the client waits in its join pool: a
  -- new one, with the requested name and time, unless an entry of the same descriptor was there,
  -- which is kept as it was. The other entries of the pool and the other channels are as they were, and
  -- the tracker still mirrors its epoll instance.
  pub join_channel-hands_over :
      IsMirror os epoll g.listener (t, g.kernel)
      → contains from t.clients ≡ true
      → lookup req.channel_id s.derived.channels ≡ some ch
      → is_locked ch ≡ false
      → has_space os ch ≡ true
      → (k : os.Kernel) × (join_channel os jansson reads from req
            (record s { con_tracker = some t }, g)
          ≡ (
            ok tt,
            (
              left_behind from req s ch (record t { clients = remove from t.clients }),
              kern (set_user_name from req.user_name g) k,
            ),
          ))
        × IsMirror os epoll g.listener (record t { clients = remove from t.clients }, k)
        × (get_user_name from (kern (set_user_name from req.user_name g) k) ≡ some req.user_name)
        × ((fd : Fd)
            → lookup fd (admitting from req ch).1.derived.more.join_pool ≡ (
                if from == fd
                then elim (lookup from ch.1.derived.more.join_pool) [
                  | none ↦ some (
                      system_message
                        (codes "join")
                        req.timestamp
                        req.user_name
                        ch.1.derived.more.channel_id)
                  | some kept ↦ some kept
                ]
                else lookup fd ch.1.derived.more.join_pool))
  unfolding set_user_name get_user_name
  join_channel-hands_over m member there free space =
      let e = delete_member os epoll g.listener from t g.kernel m member in
      (
        (os.epoll_del t.efd from g.kernel).1,
        join_channel_accepted os jansson reads from req s g t ch there free space _ _ e,
        subst (λ r. IsMirror os epoll g.listener r.1) e
            (delete_client-IsMirror os epoll g.listener from (t, g.kernel) m),
        named_after from req.user_name g,
        pool_after from req ch,
      )

  -- A join request of a connection that the lobby does not track, such as a second one in the same
  -- read, for a channel that is there, unlocked and has space, throws and leaves the channel locked:
  -- in the state that the lobby and the room are left in, with whatever the listener, the names and
  -- the system are by then, the lobby's call that locks the channel's pools hangs, and so does
  -- `resolve_pool` of the channel's worker.
  pub join_channel-locks :
      IsMirror os epoll g.listener (t, g.kernel)
      → contains from t.clients ≡ false
      → lookup req.channel_id s.derived.channels ≡ some ch
      → is_locked ch ≡ false
      → has_space os ch ≡ true
      → (e : Exn) × (s' : Server (Lobby os.Kernel)) × (g' : Globals os.Kernel) × (ch' : Channel
          os.Kernel)
        × (join_channel os jansson reads from req (record s { con_tracker = some t }, g)
            ≡ (throw e, (s', g')))
        × (lookup req.channel_id s'.derived.channels ≡ some ch')
        × (is_locked ch' ≡ true)
        × ((later : Globals os.Kernel)
            → (lock_pool os req.channel_id (s', later) ≡ (hangs, (s', later)))
              × (resolve_pool os (ch'.1, later) ≡ (hangs, (ch'.1, later))))
  join_channel-locks m absent there free space =
      let (e, k', refused, how) = delete_other os epoll g.listener from t g.kernel m absent in
      let ch' = waiting from req ch in
      let s' = record s {
        con_tracker = some t;
        derived = (put_channel s req.channel_id ch').derived;
      } in
      let stuck : is_locked ch' ≡ true = is_locked-waiting from req ch in
      (
        e,
        s',
        kern (set_user_name from req.user_name g) k',
        ch',
        join_channel_refused os jansson reads from req s g t ch there free space e t k' refused,
        lookup-put_channel s req.channel_id ch',
        stuck,
        λ later. (
          lock_pool_taken os s' later req.channel_id ch' (lookup-put_channel s req.channel_id ch')
              stuck,
          resolve_pool_taken os ch'.1 later stuck,
        ),
      )
