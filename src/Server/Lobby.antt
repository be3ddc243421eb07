-- ===== src/Server/Lobby.antt =====
-- The class `ChannelServer` (src/server/channel_server.h, src/server/channel_server.cpp): its state, and
-- its channels.
pub mod Handlers
pub mod Upkeep
pub mod Calls
pub mod Trial
pub mod Choice
pub mod Joins
pub mod Handover
pub mod Moves
pub mod Rejoin
pub mod Overdue
pub mod Expiry
pub mod Keys
pub mod Kept
pub mod Locks
pub mod Release
pub mod Running
use cpp_chat_channel.Base.{
  ℕ, zero, suc, ◌+◌, Option, none, some, List, [], ◌∷◌, Bool, true, false, ◌==◌, nat_eq, int_eq,
  if◌then◌else◌, length,
}
use cpp_chat_channel.Base.Assoc.{lookup, insert}
use cpp_chat_channel.Effects.{Outcome, ok, throw, hangs, M, ◌>>=◌, ◌>>◌, bind_outcome, return}
use cpp_chat_channel.Os.{Fd, Os}
use cpp_chat_channel.Json.{Jansson}
use cpp_chat_channel.Dto.{JoinReqDto}
use cpp_chat_channel.Queue.{Queue, empty_queue}
use cpp_chat_channel.Tasks.{Runner}
use cpp_chat_channel.Server.{Globals, Server, State}
use cpp_chat_channel.Server.Base as Base
use cpp_chat_channel.Server.Base.{Hooks, Method}
use cpp_chat_channel.Server.Base.Life.{construct, destroy}
use cpp_chat_channel.Server.Typed.{on_frame}
use cpp_chat_channel.Server.Chat as Chat
use cpp_chat_channel.Server.Chat.{Chat}
use cpp_chat_channel.Server.Channel as Rooms
use cpp_chat_channel.Server.Channel.{Room, ping_pool, wait_stop_pooling, start_pooling}
use cpp_chat_channel.Server.Channel.Worker as Worker

-- A Channel with the tasks of its runner.
abbrev pub Channel : Type 0 → Type 0
Channel K = Runner (State K (Chat Room)) × Server (Chat Room)

-- ChannelServer::ChannelReport; JOIN is the only kind of report.
abbrev pub Report : Type 0
Report = Fd × JoinReqDto

pub record Lobby (K : Type 0) : Type 0 where
  pub channels : List (ℕ × Channel K)
  pub reports : Queue Report
  pub last_act : List (Fd × ℕ)
  pub ch_max_fd : ℕ
  -- the variable `last` of the throttled task
  pub last_run : ℕ

abbrev pub with_lobby : {K : Type 0} → Server (Lobby K) → Lobby K → Server (Lobby K)
with_lobby s l = record s { derived = l }

abbrev pub with_channels : {K : Type 0} → Server (Lobby K) → List (ℕ × Channel K) → Server (Lobby K)
with_channels s m = record s { derived = record (s.derived) { channels = m } }

-- channels[id] = channel
abbrev pub put_channel : {K : Type 0} → Server (Lobby K) → ℕ → Channel K → Server (Lobby K)
put_channel s id channel = with_channels s (insert id channel s.derived.channels)

-- The loop `while (channels.find(new_id) != channels.end()) new_id++`.
unfoldable pub first_free : {A : Type 0} → ℕ → List (ℕ × A) → ℕ → ℕ
first_free zero m id = id
first_free (suc fuel) m id = elim (lookup id m) [ none ↦ id | some _ ↦ first_free fuel m (id + 1) ]

abbrev pub keys : {A : Type 0} → List (ℕ × A) → List ℕ
keys [] = []
keys (entry ∷ m) = entry.0 ∷ keys m

-- The fields of a new room.
abbrev pub new_room : ℕ → Chat Room
new_room id = record {
  cur_msgs = [];
  mq = record { items = []; stopped = false };
  more = record {
    channel_id = id;
    workers = 1;
    stop_flag = false;
    pool_locked = false;
    join_pool = [];
    leave_pool = [];
    empty_since = 0;
    reported = [];
  };
}

module _ (os : Os) where
  -- A call of a method of channels[id].
  unfoldable pub on_channel :
      {A : Type 0} → ℕ → Method os (Chat Room) A → Method os (Lobby os.Kernel) A
  on_channel id m (s, g) = elim (lookup id s.derived.channels) [
    | none ↦ (hangs, (s, g))
    | some channel ↦
        let (r, (room, g')) = m (channel.1, g) in
        (r, (with_channels s (insert id (channel.0, room) s.derived.channels), g'))
  ]

  unfoldable pub ping : ℕ → Method os (Lobby os.Kernel) Bool
  unfolding on_channel
  ping id = on_channel id (λ s. (ok (ping_pool os s.0), s))

  unfoldable pub lock_pool : ℕ → Method os (Lobby os.Kernel) (Unit {0})
  unfolding on_channel
  lock_pool id = on_channel id (wait_stop_pooling os)

  unfoldable pub unlock_pool : ℕ → Method os (Lobby os.Kernel) (Unit {0})
  unfolding on_channel
  unlock_pool id = on_channel id (start_pooling os)

  -- Locks the pools of a channel and keeps them locked if it has space; whether it has.
  unfoldable pub try_channel : ℕ → Method os (Lobby os.Kernel) Bool
  unfolding ping lock_pool unlock_pool
  try_channel id = do
    lock_pool id
    room_left ← ping id
    if room_left then return true else (unlock_pool id >> return false)

  -- The loop over the other channels: the first one that has space.
  unfoldable pub find_channel : ℕ → List ℕ → Method os (Lobby os.Kernel) (Option ℕ)
  unfolding try_channel
  find_channel preferred [] = return none
  find_channel preferred (id ∷ ids) =
      let next = find_channel preferred ids in
      if id == preferred
      then next
      else (try_channel id >>= λ found. if found then return (some id) else next)

module _ (os : Os) (jansson : Jansson) (reads : ℕ) where
  -- The virtual methods of a Channel.
  abbrev pub room_hooks : Hooks os (Chat Room)
  room_hooks = record {
    resolve_deletion = Rooms.resolve_deletion os jansson;
    on_frame = on_frame os jansson (Chat Room) (Rooms.on_req os jansson);
    on_accept = Rooms.on_accept os;
    on_disconnect = Base.on_disconnect os (Chat Room);
    on_recv =
        Base.on_recv os (Chat Room) reads
          (on_frame os jansson (Chat Room) (Rooms.on_req os jansson));
  }

  -- new Channel(this, id, max_fd): a throw of the ChatServer part destroys the ServerBase part.
  unfoldable pub new_channel : ℕ → ℕ → M (Globals os.Kernel) (Channel os.Kernel)
  new_channel id max_fd g =
      let (tasks, (s, g1)) = construct os (Chat Room) room_hooks max_fd 100 (new_room id) g in
      let (r, tasks1) = Chat.install os jansson Room tasks in
      let (r2, tasks2) = Worker.install os tasks1 in
      elim r [
        | ok _ ↦ elim r2 [
          | ok _ ↦ (ok (tasks2, s), g1)
          | throw e ↦ (hangs, g1)
          | hangs ↦ (hangs, g1)
        ]
        | throw e ↦ (throw e, (destroy os (Chat Room) (s, g1)).1)
        | hangs ↦ (hangs, g1)
      ]

  -- ChannelServer::get_channel
  unfoldable pub get_channel : ℕ → Method os (Lobby os.Kernel) (Unit {0})
  unfolding new_channel
  get_channel id (s, g) = elim (lookup id s.derived.channels) [
    | some _ ↦ (ok tt, (s, g))
    | none ↦
        let (r, g') = new_channel id s.derived.ch_max_fd g in
        elim r [
          | ok channel ↦ (ok tt, (with_channels s (insert id channel s.derived.channels), g'))
          | throw e ↦ (throw e, (s, g'))
          | hangs ↦ (hangs, (s, g'))
        ]
  ]

  -- The end of find_or_create_channel.
  unfoldable pub create_channel : Method os (Lobby os.Kernel) ℕ
  unfolding get_channel lock_pool first_free
  create_channel (s, g) =
      let m = s.derived.channels in
      let new_id = first_free (suc (length m)) m 1 in
      (get_channel new_id >> (lock_pool os new_id >> return new_id)) (s, g)

  -- What find_or_create_channel does when the preferred channel is full.
  unfoldable pub find_other : ℕ → Method os (Lobby os.Kernel) ℕ
  unfolding find_channel create_channel
  find_other preferred (s, g) =
      (find_channel os preferred (keys s.derived.channels) >>= λ found. elim found [
        | none ↦ create_channel
        | some id ↦ return id
      ])
        (s, g)

  -- ChannelServer::find_or_create_channel
  unfoldable pub find_or_create_channel : ℕ → Method os (Lobby os.Kernel) ℕ
  unfolding get_channel try_channel find_other
  find_or_create_channel preferred = do
    get_channel preferred
    found ← try_channel os preferred
    if found then return preferred else find_other preferred
