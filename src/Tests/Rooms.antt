-- ===== src/Tests/Rooms.antt =====
-- A room at concrete inputs.
use cpp_chat_channel.Base.{
  ◌≡◌, refl, pos, none, List, [], ◌∷◌, ◌++◌, true, false, not, ◌||◌, ◌&&◌, ◌==◌, nat_eq, int_eq,
  if◌then◌else◌, length,
}
use cpp_chat_channel.Base.Assoc.{contains}
use cpp_chat_channel.Effects.{ok}
use cpp_chat_channel.Os.{Fd}
use cpp_chat_channel.Tracker.{Tracker}
use cpp_chat_channel.Tracker.Mirror.{IsMirror}
use cpp_chat_channel.Server.{Server}
use cpp_chat_channel.Server.Base.Deletion.{kern}
use cpp_chat_channel.Server.Chat.{Message, Chat}
use cpp_chat_channel.Server.Channel.{Room, with_room}
use cpp_chat_channel.Server.Channel.Worker.{resolve_pool}
use cpp_chat_channel.Server.Channel.Steps.{inside, senders, IsPick}
use cpp_chat_channel.Base.{Bytes, All}
use cpp_chat_channel.Base.Assoc.{lookup}
use cpp_chat_channel.Comm.Buffers.{Communication}
use cpp_chat_channel.Server.Base.Deletion.{at}
use cpp_chat_channel.Server.Chat.Deletion.{named}
use cpp_chat_channel.Server.Channel.{resolve_deletion}
use cpp_chat_channel.Server.Channel.Departures.{IsLeave, resolve_deletion-IsLeave}
use cpp_chat_channel.Tests.Tracking.{buffers}
use cpp_chat_channel.Tests.Chatting.{notes, names}
use cpp_chat_channel.Server.Channel.Pool.{resolve_pool_lem}
use cpp_chat_channel.Tests.System.{Machine, machine, machine_epoll, machine_clock, started}
use cpp_chat_channel.Tests.Tracking.{pool, pool-IsMirror}
use cpp_chat_channel.Tests.Chatting.{saying, shared}

-- Connection 7 asks to leave, and a connection that is a client already to join.
abbrev pub busy : Room
busy = record {
  channel_id = 1;
  workers = 1;
  stop_flag = false;
  pool_locked = false;
  join_pool = saying 4 [] ∷ [];
  leave_pool = saying 5 [] ∷ [];
  empty_since = 0;
  reported = [];
}

abbrev pub room : Server (Chat Room)
room = record {
  con_tracker = none;
  comm = none;
  timeout = 100;
  next_deletion = [];
  is_running = true;
  derived = record { cur_msgs = []; mq = record { items = []; stopped = false }; more = busy };
}

resolve_pool_lem_example :
    (t' : Tracker) × (joined left : List Message) × (r : Room) × (k' : Machine) × (resolve_pool
        machine
        (inside room pool [], kern shared started)
      ≡ (ok tt, (with_room (inside room t' (([] ++ joined) ++ left)) r, kern shared k')))
    × IsPick busy.join_pool joined
    × IsPick busy.leave_pool left
    × ((x : Fd)
        → contains x t'.clients ≡ (
            (contains x pool.clients || contains x (senders joined))
            && not (contains x (senders left))))
    × IsMirror machine machine_epoll (pos 3) (t', k')
    × (r.join_pool ≡ [])
    × (r.leave_pool ≡ [])
    × (r.stop_flag ≡ (if length t'.clients == 0 then true else false))
resolve_pool_lem_example =
    resolve_pool_lem machine machine_epoll machine_clock room shared pool [] started refl
      pool-IsMirror

-- Connection 7 is a client, 9 is not.
abbrev leaving : Server (Chat Room)
leaving = record room { next_deletion = pos 7 ∷ pos 9 ∷ [] }

resolve_deletion-IsLeave_example :
    (t' : Tracker) × (c' : Communication) × (k' : Machine) × (names' : List (Fd × Bytes))
    × (news : List Message) × (resolve_deletion machine notes
          (inside (at leaving pool buffers) pool [], named shared started names)
        ≡ (ok tt, (inside (at leaving t' c') t' ([] ++ news), named shared k' names')))
    × (senders news ≡ pos 7 ∷ pos 9 ∷ [])
    × All IsLeave news
    × ((x : Fd)
        → lookup x names' ≡ (if contains x (pos 7 ∷ pos 9 ∷ []) then none else lookup x names))
resolve_deletion-IsLeave_example =
    resolve_deletion-IsLeave machine notes leaving shared pool buffers started names []
