-- ===== src/Server/Lobby/Joins.antt =====
-- What a join request does to the lobby and to the channel (src/server/channel_server.cpp).
use cpp_chat_channel.Base.{
  ℕ, ◌+◌, ◌≡◌, ap, ◌∙◌, some, true, false, arith, ==_iff, nat_eq, int_eq, if◌then◌else◌, Bytes,
  codes,
}
use cpp_chat_channel.Base.Assoc.{lookup, insert, insert-insert, emplace, erase_key, lookup-insert}
use cpp_chat_channel.Effects.{Exn, Outcome, ok, throw, M, ◌>>◌, bind_outcome}
use cpp_chat_channel.Os.{Fd, Os}
use cpp_chat_channel.Json.{Jansson}
use cpp_chat_channel.Tracker.{Tracker, delete_client}
use cpp_chat_channel.Server.{Globals, Server, State, on_tracker}
use cpp_chat_channel.Server.Users.{get_user_name, set_user_name}
use cpp_chat_channel.Server.Base.Deletion.{kern}
use cpp_chat_channel.Server.Channel.{Room, with_room, system_message, join, join_and_logging}
use cpp_chat_channel.Server.Lobby.{
  Lobby, Channel, put_channel, on_channel, unlock_pool, find_or_create_channel,
}
use cpp_chat_channel.Server.Lobby.Handlers.{Join, set_name, drop_act, join_channel}
use cpp_chat_channel.Server.Lobby.Calls.{
  is_locked, locked, lookup-put_channel, put_channel_twice, get_channel_there, on_channel_lem,
  unlock_pool_lem,
}
use cpp_chat_channel.Server.Lobby.Trial.{has_space, try_channel_lem}

-- The room when a connection waits in its join pool: a stopped one is started again.
abbrev pub entered : Bytes → Fd → ℕ → Bytes → Room → Room
entered said from time name r =
    let awake =
      if r.stop_flag
      then record r { workers = r.workers + 1; stop_flag = false; empty_since = 0 }
      else r in
    record awake {
      join_pool = emplace from (system_message said time name r.channel_id) awake.join_pool;
    }

module _ {K : Type 0} (from : Fd) (req : Join) where
  -- The channel with the new entry, locked.
  abbrev pub waiting : Channel K → Channel K
  waiting ch = (
    ch.0,
    with_room ch.1
        (entered (codes "join") from req.timestamp req.user_name (locked ch).1.derived.more),
  )

  -- The channel with the new entry, unlocked again.
  abbrev pub admitting : Channel K → Channel K
  admitting ch = (
    ch.0,
    with_room ch.1
        (record (entered (codes "join") from req.timestamp req.user_name
          (locked ch).1.derived.more) { pool_locked = false }),
  )

  pub is_locked-waiting : (ch : Channel K) → is_locked (waiting ch) ≡ true
  is_locked-waiting ch = ground arith

  -- The lobby without the client.
  abbrev pub left_behind : Server (Lobby K) → Channel K → Tracker → Server (Lobby K)
  left_behind s ch t' = record s {
    con_tracker = some t';
    derived = record (s.derived) {
      channels = insert req.channel_id (admitting ch) s.derived.channels;
      last_act = erase_key from s.derived.last_act;
    };
  }

module _ (os : Os) (jansson : Jansson) (reads : ℕ) (from : Fd) (req : Join)
    (s : Server (Lobby os.Kernel)) (g : Globals os.Kernel) (t : Tracker) (ch : Channel os.Kernel)
    (there : lookup req.channel_id s.derived.channels ≡ some ch) (free : is_locked ch ≡ false)
    (space : has_space os ch ≡ true) where
  abbrev g1 : Globals os.Kernel
  g1 = set_user_name from req.user_name g

  -- The lobby with its tracker.
  abbrev here : Server (Lobby os.Kernel)
  here = record s { con_tracker = some t }

  find_lem :
      find_or_create_channel os jansson reads req.channel_id (here, g1)
      ≡ (ok req.channel_id, (put_channel here req.channel_id (locked ch), g1))
  unfolding find_or_create_channel
  find_lem = rw (
    get_channel_there os here g1 req.channel_id ch there jansson reads,
    try_channel_lem os here g1 req.channel_id ch there free true space,
  )

  named_now : get_user_name from g1 ≡ some req.user_name
  unfolding get_user_name set_user_name
  named_now = ground (arith, lookup-insert from from req.user_name g.name_map, ==_iff from from)

  enter_lem :
      on_channel os req.channel_id
        (join_and_logging os from req.timestamp false)
        (put_channel here req.channel_id (locked ch), g1)
      ≡ (ok tt, (put_channel here req.channel_id (waiting from req ch), g1))
  unfolding join_and_logging join
  enter_lem =
      on_channel_lem os (put_channel here req.channel_id (locked ch)) g1 req.channel_id (locked ch)
        (lookup-put_channel here req.channel_id (locked ch))
        (join_and_logging os from req.timestamp false) (ok tt) (waiting from req ch).1 g1
        (rw (named_now, join_and_logging))
      ∙ ap (λ x. (ok tt, (x, g1)))
          (put_channel_twice here req.channel_id (waiting from req ch) (locked ch))

  -- What is left when the connection waits in the pool.
  leave_lobby : M (State os.Kernel (Lobby os.Kernel)) (Unit {0})
  leave_lobby =
      on_tracker (λ listener. delete_client os listener from)
      >> (drop_act os from >> unlock_pool os req.channel_id)

  join_channel_lem :
      join_channel os jansson reads from req (here, g)
      ≡ leave_lobby (put_channel here req.channel_id (waiting from req ch), g1)
  unfolding join_channel set_name leave_lobby
  join_channel_lem = rw (find_lem, join_channel) (rw enter_lem)

  pub join_channel_refused :
      (e : Exn) (t' : Tracker) (k' : os.Kernel)
      → delete_client os g.listener from (t, g.kernel) ≡ (throw e, (t', k'))
      → join_channel os jansson reads from req (here, g) ≡ (
        throw e,
        (
          record (put_channel here req.channel_id (waiting from req ch)) { con_tracker = some t' },
          kern g1 k',
        ),
      )
  unfolding leave_lobby set_user_name
  join_channel_refused e t' k' h = join_channel_lem ∙ unfold leave_lobby set_user_name in rw h

  unlock_waiting :
      (t' : Tracker) (k' : os.Kernel)
      → (drop_act os from >> unlock_pool os req.channel_id) (
        record (put_channel here req.channel_id (waiting from req ch)) { con_tracker = some t' },
        kern g1 k',
      )
        ≡ (ok tt, (left_behind from req s ch t', kern g1 k'))
  unfolding drop_act
  unlock_waiting t' k' =
      unlock_pool_lem os
        (record s {
          con_tracker = some t';
          derived = record (s.derived) {
            channels = insert req.channel_id (waiting from req ch) s.derived.channels;
            last_act = erase_key from s.derived.last_act;
          };
        })
        (kern g1 k') req.channel_id (waiting from req ch)
        (lookup-put_channel here req.channel_id (waiting from req ch))
      ∙ ap
          (λ m. (
            ok tt,
            (
              record s {
                con_tracker = some t';
                derived = record (s.derived) {
                  channels = m;
                  last_act = erase_key from s.derived.last_act;
                };
              },
              kern g1 k',
            ),
          ))
          (insert-insert req.channel_id (waiting from req ch) (admitting from req ch)
            s.derived.channels)

  -- The state of the caller when the tracker has answered.
  abbrev answered :
      Outcome (Unit {0}) × (Tracker × os.Kernel)
      → Outcome (Unit {0}) × State os.Kernel (Lobby os.Kernel)
  answered (r, (t', k')) = (
    r,
    (
      record (put_channel here req.channel_id (waiting from req ch)) { con_tracker = some t' },
      kern g1 k',
    ),
  )

  pub join_channel_accepted :
      (t' : Tracker) (k' : os.Kernel)
      → delete_client os g.listener from (t, g.kernel) ≡ (ok tt, (t', k'))
      → join_channel os jansson reads from req (here, g)
        ≡ (ok tt, (left_behind from req s ch t', kern g1 k'))
  unfolding leave_lobby set_user_name
  join_channel_accepted t' k' h =
      join_channel_lem
      ∙ (unfold leave_lobby set_user_name in
          ap
            (λ x.
              bind_outcome (answered x) (λ _. drop_act os from >> unlock_pool os req.channel_id))
            h)
      ∙ unlock_waiting t' k'
