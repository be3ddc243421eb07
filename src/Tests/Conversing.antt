-- ===== src/Tests/Conversing.antt =====
-- A conversation at concrete inputs.
use mathlib.Core.List.{flatten}
use cpp_chat_channel.Base.{
  ℕ, ◌≤◌, ◌≡◌, refl, arith, none, some, [], ◌∷◌, ◌++◌, true, false, if◌then◌else◌, pos, Bytes,
  codes, length, take, drop, map, length-take, int_eq, nat_eq,
}
use cpp_chat_channel.Base.Assoc.{lookup}
use cpp_chat_channel.Text.{same_text}
use cpp_chat_channel.Effects.{ok}
use cpp_chat_channel.Json.{Jansson}
use cpp_chat_channel.Comm.Header.{header}
use cpp_chat_channel.Comm.Stream.Chunks.{feed}
use cpp_chat_channel.Server.Users.{get_user_name}
use cpp_chat_channel.Server.Base.{each_frame}
use cpp_chat_channel.Server.Typed.{on_frame}
use cpp_chat_channel.Server.Chat.{Chat, on_req}
use cpp_chat_channel.Client.{Host, bytes}
use cpp_chat_channel.Client.Windows.{message_request, first_request}
use cpp_chat_channel.Client.Frames.{send_frame}
use cpp_chat_channel.Client.Sent.{ClientSends, send_all}
use cpp_chat_channel.Conversation.{
  Said, request, IsKnown, CanBeSaid, message_from, enqueued, each_frame-send_all,
}
use cpp_chat_channel.Tests.System.{machine, take-length-take}
use cpp_chat_channel.Tests.Chatting.{room, shared}

-- A socket that keeps what is sent, fifty bytes at a time.
abbrev line : Host
line = record {
  Kernel = Bytes;
  Address = Unit {0};
  resolve = λ name port k. (some tt, k);
  socket = λ address k. (pos 3, k);
  connect = λ fd address k. (true, k);
  close = λ fd k. k;
  recv = λ fd n k. (bytes [], k);
  send = λ fd b k. (some (length (take 50 b)), k ++ take 50 b);
  now_ms = λ k. (5, k);
  width = λ k. (80, k);
  poll = λ fd k. (none, k);
  key = λ k. (none, k);
  select = λ fd k. (none, k);
  kbhit = λ k. (false, k);
  getch = λ k. (0, k);
}

line_takes :
    (b k : Bytes) (n : ℕ)
    → some (length (take 50 b)) ≡ some n
    → (n ≤ length b) × (k ++ take 50 b ≡ k ++ take n b)
line_takes b k n h = ground (arith, length-take 50 b, take-length-take 50 b)

line_sends : ClientSends line
line_sends = record { outbox = λ k fd. k; send_takes = λ fd b k n h. line_takes b k n h }

abbrev typed : Said
typed = (codes "a \"b\"", 12)

-- A library for this message.
abbrev knowing : Jansson
knowing = record {
  Json = Said;
  loads = λ t. some typed;
  string_at = λ said key. some (if same_text key (codes "type") then codes "message" else said.0);
  integer_at = λ said key. some said.1;
  pack = λ fields. none;
  dumps = λ values. none;
}

known : IsKnown knowing typed
unfolding same_text
known t object = record {
  root = typed;
  parsed = refl;
  has_type = refl;
  has_text = refl;
  has_time = refl;
}

sayable : CanBeSaid typed
unfolding message_request
sayable = (
  (omega arith, (omega arith, (omega arith, (omega arith, (omega arith, tt))))),
  (omega arith, omega arith),
)

-- The join request is sent first.
abbrev joined : Bytes
joined = (send_frame line (pos 3) (first_request (codes "ann") 1) []).1

-- What is sent then comes in two reads.
abbrev sent : Bytes
sent = (send_all line (pos 3) (map request (typed ∷ typed ∷ [])) joined).1

abbrev later : Bytes
later = drop (length joined) sent

each_frame-send_all_example :
    (feed (take 30 later ∷ drop 30 later ∷ []) [] ≡ (ok (map request (typed ∷ typed ∷ [])), []))
    × (each_frame machine
          (Chat (Unit {0}))
          (on_frame machine knowing (Chat (Unit {0})) (on_req machine knowing (Unit {0})) (pos 7))
          (map request (typed ∷ typed ∷ []))
          (room, shared)
        ≡ (
          ok tt,
          (enqueued (map (message_from (pos 7) (codes "ann")) (typed ∷ typed ∷ [])) room, shared),
        ))
unfolding send_all send_frame header get_user_name lookup line_sends message_request first_request
    flatten
each_frame-send_all_example =
    each_frame-send_all machine knowing (Unit {0}) (pos 7) (codes "ann") shared refl line line_sends
      (pos 3) joined sent (typed ∷ typed ∷ []) (take 30 later ∷ drop 30 later ∷ []) room
      (known, (known, tt)) (sayable, (sayable, tt)) refl refl
