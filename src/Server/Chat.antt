-- ===== src/Server/Chat.antt =====
-- The class `ChatServer` (src/server/chat_server.h, src/server/chat_server.cpp). `E` holds the fields
-- of a class derived from it.
pub mod Timestamps
pub mod Window
pub mod Requests
pub mod Deletion
use cpp_chat_channel.Base.{
  ℕ, Option, none, some, List, [], ◌∷◌, Bool, true, false, ◌||◌, ltb, ◌==◌, nat_eq, if◌then◌else◌,
  Bytes, codes,
}
use cpp_chat_channel.Effects.{
  Outcome, ok, throw, hangs, M, ◌>>=◌, ◌>>◌, bind_outcome, return, modify,
}
use cpp_chat_channel.Os.{Fd, Os}
use cpp_chat_channel.Json.{Jansson, Value, text, number}
use cpp_chat_channel.Dto.{MsgType, user, system, MessageReqDto}
use cpp_chat_channel.Queue.{Queue, empty_queue, push, pop_all}
use cpp_chat_channel.Comm.Buffers.{broadcast}
use cpp_chat_channel.Tasks.{Task, Runner, pushb, pushf}
use cpp_chat_channel.Util.{hash}
use cpp_chat_channel.Server.{Globals, Server, State}
use cpp_chat_channel.Server.Users.{get_user_name, remove_user_name}
use cpp_chat_channel.Server.Base.{Method, mark, close_fd, clear_fd, try_delete, each_fd}
use cpp_chat_channel.Server.Base.Life.{ts_pre, ts_logic}

-- A message with the connection it came from.
abbrev pub Message : Type 0
Message = Fd × MessageReqDto

pub record Chat (E : Type 0) : Type 0 where
  -- a multimap: the entries in the order of their keys
  pub cur_msgs : List (ℕ × Message)
  pub mq : Queue Message
  pub more : E

-- cur_msgs.emplace(key, value): behind the entries with the same key.
unfoldable pub emplace_message : ℕ → Message → List (ℕ × Message) → List (ℕ × Message)
emplace_message key value [] = (key, value) ∷ []
emplace_message key value (entry ∷ entries) =
    if ltb key entry.0
    then (key, value) ∷ entry ∷ entries
    else entry ∷ emplace_message key value entries

-- The loop over the queue's items in `resolve_timestamps`.
unfoldable pub emplace_messages : List Message → List (ℕ × Message) → List (ℕ × Message)
unfolding emplace_message
emplace_messages [] entries = entries
emplace_messages (item ∷ items) entries =
    emplace_messages items (emplace_message item.1.timestamp item entries)

-- The three spellings of the command that `on_req` knows.
unfoldable pub is_message : Bytes → Bool
unfolding hash
is_message target =
    hash target == hash (codes "message")
    || (hash target == hash (codes "Message") || hash target == hash (codes "MESSAGE"))

module _ (os : Os) (jansson : Jansson) (E : Type 0) where
  unfoldable pub forget_name : Fd → Method os (Chat E) (Unit {0})
  forget_name fd (s, g) = (ok tt, (s, remove_user_name fd g))

  unfoldable pub drop_user : Fd → Method os (Chat E) (Unit {0})
  unfolding close_fd clear_fd forget_name
  drop_user fd = forget_name fd >> (close_fd os (Chat E) fd >> clear_fd os (Chat E) fd)

  unfoldable pub delete_user : Fd → Method os (Chat E) (Unit {0})
  unfolding try_delete drop_user
  delete_user fd = do
    deleted ← try_delete os (Chat E) fd
    if deleted then drop_user fd else return tt

  -- ChatServer::resolve_deletion
  unfoldable pub resolve_deletion : Method os (Chat E) (Unit {0})
  unfolding delete_user each_fd
  resolve_deletion (s, g) = elim s.con_tracker [
    | none ↦ (ok tt, (s, g))
    | some _ ↦ each_fd os (Chat E) delete_user s.next_deletion (s, g)
  ]

  -- ChatServer::resolve_timestamps
  unfoldable pub resolve_timestamps : Method os (Chat E) (Unit {0})
  unfolding emplace_messages pop_all
  resolve_timestamps (s, g) =
      let (local_q, left) = pop_all s.derived.mq in
      let msgs = emplace_messages local_q s.derived.cur_msgs in
      (ok tt, (record s { derived = record (s.derived) { cur_msgs = msgs; mq = left } }, g))

  -- The object of one message in a broadcast.
  unfoldable pub payload_of : ℕ → MessageReqDto → Option jansson.Json
  payload_of timestamp req = elim req.type [
    | user ↦ jansson.pack (
        (codes "type", text (codes "user"))
        ∷ (codes "user_name", text req.user_name)
        ∷ (codes "event", text req.text)
        ∷ (codes "timestamp", number timestamp)
        ∷ [])
    | system ↦ jansson.pack (
        (codes "type", text (codes "system"))
        ∷ (codes "user_name", text req.user_name)
        ∷ (codes "event", text req.text)
        ∷ (codes "timestamp", number timestamp)
        ∷ (codes "channel_id", number req.channel_id)
        ∷ [])
  ]

  -- The elements of `cur_window`: a message that cannot be packed is left out.
  unfoldable pub window : List (ℕ × Message) → List jansson.Json
  unfolding payload_of
  window [] = []
  window (entry ∷ entries) =
      let rest = window entries in
      elim (payload_of entry.0 entry.1.1) [ none ↦ rest | some payload ↦ payload ∷ rest ]

  -- ChatServer::resolve_broadcast
  unfoldable pub resolve_broadcast : Method os (Chat E) (Unit {0})
  unfolding window mark each_fd
  resolve_broadcast (s, g) = elim (jansson.dumps (window s.derived.cur_msgs)) [
    | none ↦ (ok tt, (s, g))
    | some dumped ↦ elim s.comm [
      | none ↦ (ok tt, (s, g))
      | some _ ↦ elim s.con_tracker [
        | none ↦ (ok tt, (s, g))
        | some t ↦
            let (r, k) = broadcast os t.clients dumped g.kernel in
            bind_outcome (r, (s, record g { kernel = k })) (each_fd os (Chat E) (mark os (Chat E)))
      ]
    ]
  ]

  -- The message that `on_req` makes of a request.
  unfoldable pub request_of : Fd → jansson.Json → Globals os.Kernel → Option MessageReqDto
  unfolding get_user_name
  request_of from root g = elim (jansson.string_at root (codes "text")) [
    | none ↦ none
    | some t ↦ elim (jansson.integer_at root (codes "timestamp")) [
      | none ↦ none
      | some time ↦ elim (get_user_name from g) [
        | none ↦ none
        | some name ↦
            some
              (record { type = user; text = t; timestamp = time; user_name = name; channel_id = 0 })
      ]
    ]
  ]

  -- ChatServer::on_req
  unfoldable pub on_req : Fd → Bytes → jansson.Json → Method os (Chat E) (Unit {0})
  unfolding is_message request_of
  on_req from target root (s, g) =
      if is_message target
      then elim (request_of from root g) [
        | none ↦ (ok tt, (s, g))
        | some req ↦ (
          ok tt,
          (record s { derived = record (s.derived) { mq = push (from, req) s.derived.mq } }, g),
        )
      ]
      else (ok tt, (s, g))

  -- The task at the end of TS_PRE.
  unfoldable pub clear_messages : Method os (Chat E) (Unit {0})
  clear_messages (s, g) = (ok tt, (record s { derived = record (s.derived) { cur_msgs = [] } }, g))

  -- The task in front of TS_LOGIC.
  unfoldable pub resolve_messages : Method os (Chat E) (Unit {0})
  unfolding resolve_timestamps resolve_broadcast
  resolve_messages = resolve_timestamps >> resolve_broadcast

  -- The body of ChatServer(max_fd, to), behind the constructor of ServerBase: it throws if that has
  -- made no sessions.
  unfoldable pub install : M (Runner (State os.Kernel (Chat E))) (Unit {0})
  unfolding clear_messages resolve_messages
  install = do pushb ts_pre clear_messages; pushf ts_logic resolve_messages

  -- ~ChatServer()
  unfoldable pub drop_messages : Chat E → Chat E
  drop_messages c = record c { cur_msgs = [] }
