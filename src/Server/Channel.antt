-- ===== src/Server/Channel.antt =====
-- The class `Channel` (src/server/channel.h, src/server/channel.cpp): a chat server for one room, whose
-- clients come from the lobby through `join_pool` and go through `leave_pool`.
pub mod Worker
pub mod Steps
pub mod Pool
pub mod Departures
use cpp_chat_channel.Base.{
  ℕ, zero, suc, ◌+◌, ◌%◌, ◌^◌, ◌++◌, Option, none, some, List, [], ◌∷◌, Bool, true, false, ◌||◌,
  ◌&&◌, ltb, ◌==◌, nat_eq, int_eq, if◌then◌else◌, Bytes, codes, length,
}
use cpp_chat_channel.Base.Assoc.{add, emplace}
use cpp_chat_channel.Effects.{
  Outcome, ok, throw, hangs, M, ◌>>=◌, ◌>>◌, bind_outcome, handle_outcome, return, try_catch,
}
use cpp_chat_channel.Os.{Fd, Os}
use cpp_chat_channel.Json.{Jansson}
use cpp_chat_channel.Dto.{user, system, MessageReqDto, JoinReqDto}
use cpp_chat_channel.Queue.{Queue, push}
use cpp_chat_channel.Tasks.{Task, Runner, pushf, run}
use cpp_chat_channel.Server.Base.Life.{ts_logic}
use cpp_chat_channel.Tracker.{Tracker, add_client, delete_client, get_client_count}
use cpp_chat_channel.Util.{hash}
use cpp_chat_channel.Server.{Globals, Server, State, on_tracker}
use cpp_chat_channel.Server.Users.{get_user_name, remove_user_name}
use cpp_chat_channel.Server.Base.{Method, mark, close_fd, clear_fd, try_delete, each_fd}
use cpp_chat_channel.Server.Chat as Chat
use cpp_chat_channel.Server.Chat.{Chat, Message, is_message, forget_name}

pub record Room : Type 0 where
  pub channel_id : ℕ
  -- how often a worker thread was started
  pub workers : ℕ
  pub stop_flag : Bool
  pub pool_locked : Bool
  pub join_pool : List (Fd × MessageReqDto)
  pub leave_pool : List (Fd × MessageReqDto)
  pub empty_since : ℕ
  -- what server->report was called with, in order
  pub reported : List (Fd × JoinReqDto)

abbrev pub with_room : Server (Chat Room) → Room → Server (Chat Room)
with_room s r = record s { derived = record (s.derived) { more = r } }

-- A message of the room itself; its name is filled in by the caller.
abbrev pub system_message : Bytes → ℕ → Bytes → ℕ → MessageReqDto
system_message said time name id = record {
  type = system;
  text = said;
  timestamp = time;
  user_name = name;
  channel_id = id;
}

unfoldable pub is_join : Bytes → Bool
unfolding hash
is_join target =
    hash target == hash (codes "join")
    || (hash target == hash (codes "Join") || hash target == hash (codes "JOIN"))

module _ (os : Os) where
  -- Channel::leave and Channel::join: a second request of a connection is dropped. A room whose stop_flag
  -- is set has set it in resolve_pool, under the mutex that the caller of `join` now holds, so that its
  -- worker ends with that round and worker.join() comes back.
  unfoldable pub leave : Fd → MessageReqDto → Method os (Chat Room) (Unit {0})
  leave fd msg (s, g) =
      let r = s.derived.more in
      (ok tt, (with_room s (record r { leave_pool = emplace fd msg r.leave_pool }), g))

  unfoldable pub join : Fd → MessageReqDto → Method os (Chat Room) (Unit {0})
  join fd msg (s, g) =
      let r = s.derived.more in
      let awake =
        if r.stop_flag
        then record r { workers = r.workers + 1; stop_flag = false; empty_since = 0 }
        else r in
      (ok tt, (with_room s (record awake { join_pool = emplace fd msg awake.join_pool }), g))

  unfoldable pub leave_and_logging : Fd → ℕ → Method os (Chat Room) (Unit {0})
  unfolding leave mark get_user_name
  leave_and_logging fd time (s, g) = elim (get_user_name fd g) [
    | none ↦ mark os (Chat Room) fd (s, g)
    | some name ↦
        leave fd (system_message (codes "leave") time name s.derived.more.channel_id) (s, g)
  ]

  unfoldable pub join_and_logging : Fd → ℕ → Bool → Method os (Chat Room) (Unit {0})
  unfolding join get_user_name
  join_and_logging fd time re (s, g) = elim (get_user_name fd g) [
    | none ↦ (ok tt, (s, g))
    | some name ↦
        let said : Bytes = if re then codes "rejoin" else codes "join" in
        join fd (system_message said time name s.derived.more.channel_id) (s, g)
  ]

  unfoldable pub ping_pool : Server (Chat Room) → Bool
  unfolding get_client_count
  ping_pool s = elim s.con_tracker [
    | none ↦ false
    | some t ↦ ltb (get_client_count t + length s.derived.more.join_pool) t.max_fd
  ]

  -- pool_mtx.lock(), which waits while another thread has it, and pool_mtx.unlock()
  unfoldable pub wait_stop_pooling : Method os (Chat Room) (Unit {0})
  wait_stop_pooling (s, g) =
      let r = s.derived.more in
      if r.pool_locked
      then (hangs, (s, g))
      else (ok tt, (with_room s (record r { pool_locked = true }), g))

  unfoldable pub start_pooling : Method os (Chat Room) (Unit {0})
  start_pooling (s, g) = (ok tt, (with_room s (record (s.derived.more) { pool_locked = false }), g))

  unfoldable pub on_accept : Fd → Method os (Chat Room) (Unit {0})
  on_accept client = return tt

  -- mq.push
  unfoldable pub enqueue : Message → Method os (Chat Room) (Unit {0})
  enqueue item (s, g) =
      (ok tt, (record s { derived = record (s.derived) { mq = push item s.derived.mq } }, g))

  -- The message of a deletion, under the name "unknown" if there is none.
  unfoldable pub announce_leave : Fd → Method os (Chat Room) (Unit {0})
  unfolding enqueue get_user_name
  announce_leave fd (s, g) =
      let (time, k) = os.system_ms g.kernel in
      let name : Bytes = elim (get_user_name fd g) [ none ↦ codes "unknown" | some n ↦ n ] in
      enqueue (fd, system_message (codes "leave") time name s.derived.more.channel_id)
        (s, record g { kernel = k })

  module _ (jansson : Jansson) where
    -- Here the socket is closed whether the tracker had it or not.
    unfoldable pub delete_member : Fd → Method os (Chat Room) (Unit {0})
    unfolding announce_leave try_delete close_fd clear_fd
    delete_member fd = do
      announce_leave fd
      try_delete os (Chat Room) fd
      forget_name os jansson Room fd
      close_fd os (Chat Room) fd
      clear_fd os (Chat Room) fd

    -- Channel::resolve_deletion
    unfoldable pub resolve_deletion : Method os (Chat Room) (Unit {0})
    unfolding delete_member each_fd
    resolve_deletion (s, g) = elim s.con_tracker [
      | none ↦ (ok tt, (s, g))
      | some _ ↦ each_fd os (Chat Room) delete_member s.next_deletion (s, g)
    ]

    -- The report that `on_req` makes of a join request for another room. The 64 bits that jansson
    -- stores through a pointer to 32 bits are cut to the low ones.
    unfoldable pub join_of : jansson.Json → ℕ → Option JoinReqDto
    join_of root id = elim (jansson.integer_at root (codes "channel_id")) [
      | none ↦ none
      | some wide ↦ elim (jansson.integer_at root (codes "timestamp")) [
        | none ↦ none
        | some time ↦
            let ch_to : ℕ = wide % 2 ^ 32 in
            if ch_to == id
            then none
            else some (record { ch_from = id; ch_to = ch_to; timestamp = time; user_name = [] })
      ]
    ]

    -- Channel::on_req
    unfoldable pub on_req : Fd → Bytes → jansson.Json → Method os (Chat Room) (Unit {0})
    unfolding is_join join_of
    on_req from target root (s, g) =
        let r = s.derived.more in
        if is_message target
        then Chat.on_req os jansson Room from target root (s, g)
        else if is_join target
        then elim (join_of root r.channel_id) [
          | none ↦ (ok tt, (s, g))
          | some dto ↦
              (ok tt, (with_room s (record r { reported = r.reported ++ (from, dto) ∷ [] }), g))
        ]
        else (ok tt, (s, g))
