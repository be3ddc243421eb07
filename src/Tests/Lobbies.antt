-- ===== src/Tests/Lobbies.antt =====
-- The lobby at concrete inputs.
use cpp_chat_channel.Base.{
  ℕ, ◌≡◌, refl, pos, none, some, List, [], ◌∷◌, true, false, arith, ◌==◌, nat_eq, int_eq,
  if◌then◌else◌, codes,
}
use cpp_chat_channel.Base.Assoc.{contains, remove, lookup, insert}
use cpp_chat_channel.Effects.{Exn, ok, throw, hangs}
use cpp_chat_channel.Os.{Fd}
use cpp_chat_channel.Comm.Buffers.{send_frame}
use cpp_chat_channel.Tracker.Mirror.{IsMirror}
use cpp_chat_channel.Util.{hash}
use cpp_chat_channel.Tasks.{throttle}
use cpp_chat_channel.Server.{Globals, Server, State}
use cpp_chat_channel.Server.Users.{get_user_name, set_user_name}
use cpp_chat_channel.Server.Base.Deletion.{kern}
use cpp_chat_channel.Server.Channel.{
  ping_pool, system_message, is_join, wait_stop_pooling, start_pooling, join_and_logging, join,
}
use cpp_chat_channel.Server.Lobby.Calls.{is_locked, locked}
use cpp_chat_channel.Tracker.{delete_client}
use cpp_chat_channel.Server.Channel.Worker.{resolve_pool}
use cpp_chat_channel.Server.Lobby.{
  Lobby, Channel, Report, with_channels, put_channel, get_channel, try_channel, ping, unlock_pool,
  on_channel, lock_pool, find_or_create_channel,
}
use cpp_chat_channel.Server.Lobby.Handlers.{
  on_req, join_request, set_name, drop_act, Join, join_channel, handle_report, consume_report,
  channel_full,
}
use cpp_chat_channel.Server.Lobby.Upkeep.{check_lobby, check_channels, upkeep, sweep, is_expired}
use cpp_chat_channel.Server.Lobby.Choice.{AllFree, Chooses, find_or_create_channel-Chooses}
use cpp_chat_channel.Server.Lobby.Joins.{left_behind, admitting}
use cpp_chat_channel.Server.Lobby.Handover.{join_channel-hands_over, join_channel-locks}
use cpp_chat_channel.Server.Lobby.Moves.{after_refusal, arrived, parted, handle_report_full}
use cpp_chat_channel.Server.Lobby.Rejoin as Rejoin
use cpp_chat_channel.Server.Lobby.Rejoin.{rejoin_moves}
use cpp_chat_channel.Server.Channel as Rooms
use cpp_chat_channel.Server.Chat.{is_message}
use cpp_chat_channel.Dto.{JoinReqDto}
use cpp_chat_channel.Server.Lobby.Expiry.{lasting, any_idled, Shuts, check_channels_lem}
use cpp_chat_channel.Server.Lobby.Release.Reach.{
  Call, request, second, perform, Reach, here, after, Reach-AllFree,
}
use cpp_chat_channel.Tests.System.{Machine, machine, machine_epoll, started}
use cpp_chat_channel.Tests.Tracking.{pool, buffers, pool-IsMirror}
use cpp_chat_channel.Tests.Chatting.{Note, notes, shared}
use cpp_chat_channel.Tests.Rooms.{busy, room}

abbrev spacious : Channel Machine
spacious = ([], record room { con_tracker = some (record pool { max_fd = 8 }) })

abbrev crowded : Channel Machine
crowded = (
  [],
  record room {
    con_tracker = some pool;
    derived = record (room.derived) {
      more = record busy { channel_id = 2; stop_flag = true; empty_since = 7 };
    };
  },
)

abbrev halls : List (ℕ × Channel Machine)
halls = (1, spacious) ∷ (2, crowded) ∷ []

abbrev lobby : Server (Lobby Machine)
lobby = record {
  con_tracker = some pool;
  comm = some buffers;
  timeout = 0;
  next_deletion = [];
  is_running = true;
  derived = record {
    channels = halls;
    reports = record { items = []; stopped = false };
    last_act = (pos 7, 990) ∷ (pos 8, 10) ∷ [];
    ch_max_fd = 2;
    last_run = 0;
  };
}

halls_free : AllFree lobby
unfolding lookup
halls_free id ch h = ground arith

-- Channel 2 is full, so channel 1 is taken.
find_or_create_channel-Chooses_example :
    Chooses machine notes 10 2 lobby shared
      (find_or_create_channel machine notes 10 2 (lobby, shared))
unfolding lookup
find_or_create_channel-Chooses_example =
    find_or_create_channel-Chooses machine notes 10 2 lobby shared crowded halls_free refl

abbrev asking : Join
asking = record { channel_id = 1; timestamp = 3; user_name = codes "eve" }

join_channel-hands_over_example :
    (k : Machine) × (join_channel machine notes 10 (pos 7) asking (lobby, shared) ≡ (
      ok tt,
      (
        left_behind
            (pos 7)
            asking
            lobby
            spacious
            (record pool { clients = remove (pos 7) pool.clients }),
        kern (set_user_name (pos 7) (codes "eve") shared) k,
      ),
    ))
    × IsMirror machine machine_epoll
        (pos 3)
        (record pool { clients = remove (pos 7) pool.clients }, k)
    × (get_user_name (pos 7) (kern (set_user_name (pos 7) (codes "eve") shared) k)
        ≡ some (codes "eve"))
    × ((fd : Fd)
        → lookup fd (admitting (pos 7) asking spacious).1.derived.more.join_pool ≡ (
            if pos 7 == fd
            then elim (lookup (pos 7) busy.join_pool) [
              | none ↦ some (system_message (codes "join") 3 (codes "eve") busy.channel_id)
              | some kept ↦ some kept
            ]
            else lookup fd busy.join_pool))
unfolding lookup contains ping_pool
join_channel-hands_over_example =
    join_channel-hands_over machine machine_epoll notes 10 (pos 7) asking lobby shared pool spacious
      pool-IsMirror refl refl refl refl

-- Connection 9 is no client of the lobby.
join_channel-locks_example :
    (e : Exn) × (s' : Server (Lobby Machine)) × (g' : Globals Machine) × (ch' : Channel Machine)
    × (join_channel machine notes 10 (pos 9) asking (lobby, shared) ≡ (throw e, (s', g')))
    × (lookup 1 s'.derived.channels ≡ some ch')
    × (is_locked ch' ≡ true)
    × ((later : Globals Machine)
        → (lock_pool machine 1 (s', later) ≡ (hangs, (s', later)))
          × (resolve_pool machine (ch'.1, later) ≡ (hangs, (ch'.1, later))))
unfolding lookup contains ping_pool
join_channel-locks_example =
    join_channel-locks machine machine_epoll notes 10 (pos 9) asking lobby shared pool spacious
      pool-IsMirror refl refl refl refl

-- Connection 7, which has a name, asks in channel 1 for channel 2.
abbrev to_crowded : Report
to_crowded = (pos 7, record { ch_from = 1; ch_to = 2; timestamp = 4; user_name = [] })

handle_report_full_example :
    handle_report machine notes 10 to_crowded (lobby, shared)
    ≡ after_refusal lobby shared 2 crowded (send_frame machine (pos 7) channel_full started)
unfolding lookup ping_pool
handle_report_full_example =
    handle_report_full machine notes 10 to_crowded lobby shared spacious crowded refl refl refl
      buffers refl

-- Connection 7 asks in channel 2 for channel 1.
abbrev wish : Note
wish = record { body = codes "abc"; time = 1 }

abbrev wished : JoinReqDto
wished = record { ch_from = 2; ch_to = 1; timestamp = 1; user_name = [] }

abbrev crowd : Channel Machine
crowd = Rejoin.asked (pos 7, wished) crowded

rejoin_moves_example :
    (on_channel machine 2 (Rooms.on_req machine notes (pos 7) (codes "join") wish) (lobby, shared)
      ≡ (ok tt, (put_channel lobby 2 crowd, shared)))
    × (m : List (ℕ × Channel Machine)) × (consume_report machine notes 10
          (Rejoin.told machine (pos 7, wished) (put_channel lobby 2 crowd), shared)
        ≡ (ok tt, (with_channels (put_channel lobby 2 crowd) m, shared)))
    × ((id : ℕ)
        → lookup id m ≡ (
            if 1 == id
            then some (arrived (pos 7, wished) (codes "ann") spacious)
            else if 2 == id
            then some (parted (pos 7, wished) (codes "ann") crowd)
            else lookup id halls))
unfolding lookup get_user_name ping_pool is_message is_join hash Rooms.join_of
rejoin_moves_example =
    rejoin_moves machine notes 10 (pos 7) (codes "join") wish wished (codes "ann") lobby shared
      crowded spacious refl refl refl refl refl refl refl refl

-- Five minutes and more after channel 2 stopped.
abbrev late : Globals Machine
late = record shared { kernel = record started { clock = 400000 } }

check_channels_lem_example :
    (g' : Globals Machine) × (check_channels machine (lobby, late)
      ≡ (ok tt, (with_channels lobby (lasting 400000 halls), g')))
    × Shuts machine (any_idled 400000 halls) late g'
check_channels_lem_example =
    check_channels_lem machine lobby late (omega arith) (omega arith, (omega arith, tt))

-- Connection 7 asks for channel 1, and then the times are checked.
abbrev ask : Call machine notes 10
ask = request (pos 7) (codes "join") (record { body = codes "abc"; time = 1 })

abbrev asked : State Machine (Lobby Machine)
asked = (perform machine notes 10 ask (lobby, shared)).1

abbrev checked : State Machine (Lobby Machine)
checked = (perform machine notes 10 second asked).1

steps : Reach machine notes 10 (lobby, shared) checked
unfolding perform on_req is_join join_request join_channel find_or_create_channel get_channel
    try_channel lock_pool ping unlock_pool on_channel wait_stop_pooling start_pooling ping_pool
    join_and_logging join delete_client upkeep check_lobby check_channels sweep throttle is_expired
    lookup insert contains set_name drop_act hash
steps = after second (after ask here refl) refl

Reach-AllFree_example :
    (is_locked crowded ≡ false)
    × (lock_pool machine 2 checked ≡ (ok tt, (put_channel checked.0 2 (locked crowded), checked.1)))
unfolding perform on_req is_join join_request join_channel find_or_create_channel get_channel
    try_channel lock_pool ping unlock_pool on_channel wait_stop_pooling start_pooling ping_pool
    join_and_logging join delete_client upkeep check_lobby check_channels sweep throttle is_expired
    lookup insert contains set_name drop_act hash
Reach-AllFree_example =
    Reach-AllFree machine notes 10 (lobby, shared) checked 2 crowded halls_free (refl, (refl, tt))
      steps refl
