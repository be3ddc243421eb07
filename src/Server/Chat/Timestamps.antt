-- ===== src/Server/Chat/Timestamps.antt =====
-- The order of the messages of a tick (`ChatServer::resolve_timestamps`, src/server/chat_server.cpp).
use cpp_chat_channel.Base.{
  ℕ, suc, ◌≤◌, ◌≡◌, refl, sym, ap, ◌∙◌, inl, inr, List, [], ◌∷◌, ◌++◌, Bool, true, false, ltb,
  arith, ◌==◌, ==_iff, nat_eq, if◌then◌else◌, Bool-cases,
}
use mathlib.Core.List.{append-nil, append_assoc}
use cpp_chat_channel.Effects.{ok}
use cpp_chat_channel.Os.{Os}
use cpp_chat_channel.Json.{Jansson}
use cpp_chat_channel.Queue.{pop_all}
use cpp_chat_channel.Server.{Globals, Server}
use cpp_chat_channel.Server.Chat.{
  Message, Chat, emplace_message, emplace_messages, resolve_timestamps,
}

-- Every entry's key is at least `bound`, and the keys do not go down.
abbrev pub IsAscending : ℕ → List (ℕ × Message) → Type 0
IsAscending bound [] = Unit
IsAscending bound (entry ∷ entries) = (bound ≤ entry.0) × IsAscending entry.0 entries

-- The messages kept under a time stamp, in their order.
abbrev pub kept_at : ℕ → List (ℕ × Message) → List Message
kept_at time [] = []
kept_at time (entry ∷ entries) =
    let rest = kept_at time entries in if entry.0 == time then entry.1 ∷ rest else rest

-- The messages that carry a time stamp, in their order.
abbrev pub sent_at : ℕ → List Message → List Message
sent_at time [] = []
sent_at time (item ∷ items) =
    let rest = sent_at time items in if item.1.timestamp == time then item ∷ rest else rest

emplace_message-IsAscending :
    (bound key : ℕ) (value : Message) (entries : List (ℕ × Message))
    → bound ≤ key
    → IsAscending bound entries
    → IsAscending bound (emplace_message key value entries)
unfolding emplace_message
emplace_message-IsAscending bound key value [] b a = (b, tt)
emplace_message-IsAscending bound key value (entry ∷ entries) b a =
    elim (Bool-cases (ltb key entry.0)) [
      | inl less ↦ rw less (b, (ground (arith, less), a.1))
      | inr more ↦
          rw more
            (a.0, emplace_message-IsAscending entry.0 key value entries (ground (arith, more)) a.1)
    ]

-- In an ascending list no entry above the bound has a smaller key.
kept_at-above :
    (time bound : ℕ) (entries : List (ℕ × Message))
    → suc time ≤ bound
    → IsAscending bound entries
    → kept_at time entries ≡ []
kept_at-above time bound [] h a = refl
kept_at-above time bound (entry ∷ entries) h a =
    ground
      (arith, ==_iff entry.0 time, kept_at-above time entry.0 entries (omega (arith, h, a.0)) a.1)

-- The new message is the last one of its time stamp.
kept_at-emplace_message :
    (time key bound : ℕ) (value : Message) (entries : List (ℕ × Message))
    → IsAscending bound entries
    → kept_at time (emplace_message key value entries)
      ≡ kept_at time entries ++ (if key == time then value ∷ [] else [])
unfolding emplace_message
kept_at-emplace_message time key bound value [] a = refl
kept_at-emplace_message time key bound value (entry ∷ entries) a =
    elim (Bool-cases (ltb key entry.0)) [
      | inl less ↦ ground (
        arith,
        less,
        ==_iff key time,
        ==_iff entry.0 time,
        λ (h : suc time ≤ entry.0). kept_at-above time entry.0 entries h a.1,
        append-nil (kept_at time entries),
        append-nil (entry.1 ∷ kept_at time entries),
      )
      | inr more ↦ ground (arith, more, kept_at-emplace_message time key entry.0 value entries a.1)
    ]

emplace_messages-IsAscending :
    (items : List Message) (entries : List (ℕ × Message))
    → IsAscending 0 entries
    → IsAscending 0 (emplace_messages items entries)
unfolding emplace_messages
emplace_messages-IsAscending [] entries a = a
emplace_messages-IsAscending (item ∷ items) entries a =
    emplace_messages-IsAscending items (emplace_message item.1.timestamp item entries)
      (emplace_message-IsAscending 0 item.1.timestamp item entries (omega arith) a)

kept_at-emplace_messages :
    (time : ℕ) (items : List Message) (entries : List (ℕ × Message))
    → IsAscending 0 entries
    → kept_at time (emplace_messages items entries) ≡ kept_at time entries ++ sent_at time items
unfolding emplace_messages
kept_at-emplace_messages time [] entries a = sym (append-nil (kept_at time entries))
kept_at-emplace_messages time (item ∷ items) entries a =
    kept_at-emplace_messages time items (emplace_message item.1.timestamp item entries)
      (emplace_message-IsAscending 0 item.1.timestamp item entries (omega arith) a)
    ∙ ap (λ xs. xs ++ sent_at time items)
        (kept_at-emplace_message time item.1.timestamp 0 item entries a)
    ∙ append_assoc (kept_at time entries) (if item.1.timestamp == time then item ∷ [] else [])
        (sent_at time items)
    ∙ ap (◌++◌ (kept_at time entries)) (one_then (item.1.timestamp == time))
  where
    one_then :
        (b : Bool)
        → (if b then item ∷ [] else []) ++ sent_at time items
          ≡ (if b then item ∷ sent_at time items else sent_at time items)
    one_then true = refl
    one_then false = refl

-- `resolve_timestamps` returns and empties the queue. The messages stay in the order of their time
-- stamps, and under each time stamp stand those that were there and behind them the new ones in the
-- order of their arrival: none is lost, doubled or moved to another time stamp.
pub resolve_timestamps_lem :
    (os : Os) (jansson : Jansson) (E : Type 0) (s : Server (Chat E)) (g : Globals os.Kernel)
    → IsAscending 0 s.derived.cur_msgs
    → (msgs : List (ℕ × Message)) × (resolve_timestamps os jansson E (s, g) ≡ (
      ok tt,
      (
        record s {
          derived = record (s.derived) {
            cur_msgs = msgs;
            mq = record (s.derived.mq) { items = [] };
          };
        },
        g,
      ),
    ))
      × IsAscending 0 msgs
      × ((time : ℕ)
          → kept_at time msgs ≡ kept_at time s.derived.cur_msgs ++ sent_at time s.derived.mq.items)
unfolding resolve_timestamps pop_all
resolve_timestamps_lem os jansson E s g a = (
  emplace_messages s.derived.mq.items s.derived.cur_msgs,
  refl,
  emplace_messages-IsAscending s.derived.mq.items s.derived.cur_msgs a,
  λ time. kept_at-emplace_messages time s.derived.mq.items s.derived.cur_msgs a,
)
