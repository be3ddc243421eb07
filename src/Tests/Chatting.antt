-- ===== src/Tests/Chatting.antt =====
-- The chat server at concrete inputs, with a small JSON library.
use cpp_chat_channel.Base.{
  ℕ, ◌≡◌, refl, pos, Option, none, some, List, [], ◌∷◌, ◌++◌, true, false, ◌||◌, arith, ◌==◌,
  nat_eq, int_eq, if◌then◌else◌, Bytes, codes, get_elem?,
}
use cpp_chat_channel.Base.Assoc.{contains, IsDistinct}
use cpp_chat_channel.Effects.{ok}
use cpp_chat_channel.Os.{Fd}
use cpp_chat_channel.Json.{Jansson, Value, text, number}
use cpp_chat_channel.Dto.{user}
use cpp_chat_channel.Comm.Stream.RoundTrip.{encode}
use cpp_chat_channel.Comm.Buffers.{Communication}
use cpp_chat_channel.Comm.Buffers.Broadcast.{Reached}
use cpp_chat_channel.Tracker.{Tracker}
use cpp_chat_channel.Server.{Globals, Server}
use cpp_chat_channel.Server.Base.Deletion.{at, kern}
use cpp_chat_channel.Server.Base.Purged.{Purged}
use cpp_chat_channel.Server.Typed.{on_frame}
use cpp_chat_channel.Server.Chat.{
  Message, Chat, window, payload_of, resolve_timestamps, resolve_broadcast, resolve_deletion,
  on_req,
}
use cpp_chat_channel.Server.Chat.Timestamps.{IsAscending, kept_at, sent_at, resolve_timestamps_lem}
use cpp_chat_channel.Server.Chat.Window.{resolve_broadcast-Reached}
use cpp_chat_channel.Server.Chat.Requests.{Posts, on_frame-Posts}
use cpp_chat_channel.Server.Chat.Deletion.{named, IsForgotten, resolve_deletion-IsForgotten}
use cpp_chat_channel.Tests.System.{
  Machine, machine, machine_sends, machine_epoll, machine_close, started,
}
use cpp_chat_channel.Tests.Tracking.{pool, buffers, pool-IsMirror}

-- An object: a command, its text and its time.
pub record Note : Type 0 where
  pub body : Bytes
  pub time : ℕ

abbrev pub read_note : Bytes → Option Note
read_note [] = none
read_note (c ∷ s) = some (record { body = s; time = c })

-- The text under "type", whose second letter is a y, or under "text".
abbrev pub text_of : Note → Option ℕ → Bytes
text_of note none = []
text_of note (some c) = if c == 121 then codes "message" else note.body

abbrev pub joined : List (Bytes × Value) → Bytes
joined [] = []
joined ((key, text s) ∷ fields) = s ++ joined fields
joined ((key, number n) ∷ fields) = joined fields

abbrev pub bodies : List Note → Bytes
bodies [] = codes "]"
bodies (note ∷ notes) = note.body ++ bodies notes

abbrev pub notes : Jansson
notes = record {
  Json = Note;
  loads = read_note;
  string_at = λ note key. some (text_of note (get_elem? key 1));
  integer_at = λ note key. some note.time;
  pack = λ fields. some (record { body = joined fields; time = 0 });
  dumps = λ ns. some (codes "[" ++ bodies ns);
}

abbrev pub saying : ℕ → Bytes → Message
saying time said = (
  pos 7,
  record { type = user; text = said; timestamp = time; user_name = codes "ann"; channel_id = 0 },
)

abbrev chat : Chat (Unit {0})
chat = record {
  cur_msgs = (5, saying 5 (codes "a")) ∷ (9, saying 9 (codes "b")) ∷ [];
  mq = record { items = saying 9 (codes "c") ∷ saying 5 (codes "d") ∷ []; stopped = false };
  more = tt;
}

abbrev pub room : Server (Chat (Unit {0}))
room = record {
  con_tracker = none;
  comm = none;
  timeout = 0;
  next_deletion = pos 7 ∷ pos 9 ∷ [];
  is_running = true;
  derived = chat;
}

abbrev pub names : List (Fd × Bytes)
names = (pos 7, codes "ann") ∷ (pos 8, codes "bob") ∷ []

abbrev pub shared : Globals Machine
shared = record { kernel = started; listener = pos 3; name_map = names }

resolve_timestamps_lem_example :
    (msgs : List (ℕ × Message)) × (resolve_timestamps machine notes (Unit {0}) (room, shared) ≡ (
      ok tt,
      (
        record room {
          derived = record chat { cur_msgs = msgs; mq = record (chat.mq) { items = [] } };
        },
        shared,
      ),
    ))
    × IsAscending 0 msgs
    × ((time : ℕ) → kept_at time msgs ≡ kept_at time chat.cur_msgs ++ sent_at time chat.mq.items)
resolve_timestamps_lem_example =
    resolve_timestamps_lem machine notes (Unit {0}) room shared (omega arith, (omega arith, tt))

window_text :
    notes.dumps (window machine notes (Unit {0}) chat.cur_msgs)
    ≡ some (codes "[useranna" ++ codes "userannb]")
unfolding window payload_of
window_text = refl

pool-IsDistinct : IsDistinct pool.clients
unfolding contains
pool-IsDistinct = (refl, (refl, tt))

resolve_broadcast-Reached_example :
    (failed marked : List Fd) × (k : Machine) × (resolve_broadcast machine notes
        (Unit {0})
        (at room pool buffers, shared)
      ≡ (ok tt, (record (at room pool buffers) { next_deletion = marked }, kern shared k)))
    × ((x : Fd) → contains x marked ≡ (contains x room.next_deletion || contains x failed))
    × Reached machine machine_sends
        (encode (codes "[useranna" ++ codes "userannb]"))
        started
        k
        pool.clients
        failed
resolve_broadcast-Reached_example =
    resolve_broadcast-Reached machine machine_sends notes (Unit {0}) room pool buffers shared
      (codes "[useranna" ++ codes "userannb]") window_text (omega arith) pool-IsDistinct

on_frame-Posts_example : Posts machine notes (Unit {0}) (pos 7) (codes "5hello") room shared (
    on_frame machine notes
      (Chat (Unit {0}))
      (on_req machine notes (Unit {0}))
      (pos 7)
      (codes "5hello")
      (room, shared))
on_frame-Posts_example =
    on_frame-Posts machine notes (Unit {0}) (pos 7) (codes "5hello") room shared

resolve_deletion-IsForgotten_example :
    (t' : Tracker) × (c' : Communication) × (k' : Machine) × (names' : List (Fd × Bytes))
    × (resolve_deletion machine notes (Unit {0}) (at room pool buffers, named shared started names)
        ≡ (ok tt, (at room t' c', named shared k' names')))
    × IsForgotten room.next_deletion pool.clients names names'
    × Purged machine machine_epoll machine_close
        (pos 3)
        room.next_deletion
        pool
        buffers
        started
        t'
        c'
        k'
resolve_deletion-IsForgotten_example =
    resolve_deletion-IsForgotten machine machine_epoll machine_close notes (Unit {0}) room shared
      pool buffers started names pool-IsMirror
