-- ===== src/Conversation.antt =====
-- From a client to a server: the requests of src/client/client_win.cpp, sent in frames, read by
-- src/libs/communication.cpp and taken by src/server/chat_server.cpp.
use mathlib.Core.List.{flatten}
use cpp_chat_channel.Base.{
  ℕ, ◌≡◌, refl, sym, ap, subst, ◌∙◌, some, List, [], ◌∷◌, ◌++◌, true, nat_eq, Bytes, codes, All,
  map, append_assoc, append-nil,
}
use cpp_chat_channel.Effects.{Outcome, ok, bind_outcome}
use cpp_chat_channel.Os.{Fd, Os}
use cpp_chat_channel.Json.{Jansson}
use cpp_chat_channel.Json.Grammar.{IsObject, c_str-IsObject}
use cpp_chat_channel.Client.Quoted.{IsClean, members, IsObject-message_request}
use cpp_chat_channel.Dto.{user}
use cpp_chat_channel.Queue.{push}
use cpp_chat_channel.Comm.Stream.RoundTrip.{IsPayload, encode_all, feed-encode_all}
use cpp_chat_channel.Comm.Stream.Chunks.{feed}
use cpp_chat_channel.Server.{Globals, Server, State}
use cpp_chat_channel.Server.Users.{get_user_name}
use cpp_chat_channel.Server.Base.{each_frame}
use cpp_chat_channel.Server.Typed.{on_frame}
use cpp_chat_channel.Server.Chat.{Chat, Message, is_message, request_of, on_req}
use cpp_chat_channel.Client.{Host}
use cpp_chat_channel.Client.Windows.{message_request}
use cpp_chat_channel.Client.Sent.{ClientSends, send_all, Sends, send_all-Sends}

-- A text that was typed, and the time at which it was sent.
abbrev pub Said : Type 0
Said = Bytes × ℕ

abbrev pub request : Said → Bytes
request said = message_request said.0 said.1

-- jansson reads a text as an object with the command, the text and the time of a message request.
pub record IsRead (jansson : Jansson) (said : Said) (t : Bytes) : Type 0 where
  pub root : jansson.Json
  pub parsed : jansson.loads t ≡ some root
  pub has_type : jansson.string_at root (codes "type") ≡ some (codes "message")
  pub has_text : jansson.string_at root (codes "text") ≡ some said.0
  pub has_time : jansson.integer_at root (codes "timestamp") ≡ some said.1

-- jansson reads every JSON text of the object with these members so.
abbrev pub IsKnown : Jansson → Said → Type 0
IsKnown jansson said = (t : Bytes) → IsObject t (members said.0 said.1) → IsRead jansson said t

-- The text has no control characters, and its request fits in a frame.
abbrev pub CanBeSaid : Said → Type 0
CanBeSaid said = IsClean said.0 × IsPayload (request said)

payloads : (saids : List Said) → All CanBeSaid saids → All IsPayload (map request saids)
payloads [] a = tt
payloads (said ∷ saids) ((r, h), a) = (h, payloads saids a)

append_cancel : (a x y : Bytes) → a ++ x ≡ a ++ y → x ≡ y
append_cancel [] x y e = e
append_cancel (c ∷ a) x y e = append_cancel a x y (cc e)

-- What the server makes of a text, under the user's name.
abbrev pub message_from : Fd → Bytes → Said → Message
message_from fd name said = (
  fd,
  record { type = user; text = said.0; timestamp = said.1; user_name = name; channel_id = 0 },
)

abbrev with_items : {E : Type 0} → List Message → Server (Chat E) → Server (Chat E)
with_items items s = record s {
  derived = record (s.derived) { mq = record (s.derived.mq) { items = items } };
}

abbrev pub enqueued : {E : Type 0} → List Message → Server (Chat E) → Server (Chat E)
enqueued items s = with_items (s.derived.mq.items ++ items) s

module _ (os : Os) (jansson : Jansson) (E : Type 0) (from : Fd) (name : Bytes)
    (g : Globals os.Kernel) (named : get_user_name from g ≡ some name) where
  on_frame-request :
      (said : Said) (s : Server (Chat E))
      → IsKnown jansson said
      → IsClean said.0
      → on_frame os jansson (Chat E) (on_req os jansson E) from (request said) (s, g)
        ≡ (ok tt, (enqueued (message_from from name said ∷ []) s, g))
  unfolding on_frame on_req request_of is_message push
  on_frame-request said s known clean =
      let object = IsObject-message_request said.0 said.1 clean in
      let r = known (request said) object in
      let parsed = ap jansson.loads (c_str-IsObject object) ∙ r.parsed in
      rw (parsed, r.has_type, r.has_text, r.has_time, named, on_frame, on_req, request_of) refl

  each_frame-requests :
      (saids : List Said) (s : Server (Chat E))
      → All (IsKnown jansson) saids
      → All CanBeSaid saids
      → each_frame os
          (Chat E)
          (on_frame os jansson (Chat E) (on_req os jansson E) from)
          (map request saids)
          (s, g)
        ≡ (ok tt, (enqueued (map (message_from from name) saids) s, g))
  unfolding each_frame
  each_frame-requests [] s k a =
      ap (λ items. (ok tt, (with_items items s, g))) (sym (append-nil s.derived.mq.items))
  each_frame-requests (said ∷ saids) s (known, k) ((clean, _), a) =
      let serve = on_frame os jansson (Chat E) (on_req os jansson E) from in
      let m = message_from from name said in
      ap {A = Outcome (Unit {0}) × State os.Kernel (Chat E)}
        (λ x. bind_outcome x (λ _. each_frame os (Chat E) serve (map request saids)))
        (on_frame-request said s known clean)
      ∙ each_frame-requests saids (enqueued (m ∷ []) s) k a
      ∙ ap (λ items. (ok tt, (with_items items s, g)))
          (append_assoc s.derived.mq.items (m ∷ []) (map (message_from from name) saids))

  -- Messages without control characters, whose requests fit in a frame, that a client for Windows
  -- sends with success on a connection, behind the join request and whatever else it sent before,
  -- reach the queue of a chat server in which the connection has a name. However the bytes of these
  -- messages are cut into reads, the server finds one frame for each message and no byte besides, and
  -- its handler puts the messages behind the queue, in their order, with the texts that were typed,
  -- their times and the user's name, and changes nothing else. It is supposed that jansson reads every
  -- JSON text of an object with the members of such a message as that object; that the client writes
  -- one is part of what is proved.
  pub each_frame-send_all :
      (host : Host) (laws : ClientSends host) (fd : Fd) (k k' : host.Kernel) (saids : List Said)
      (reads : List Bytes) (s : Server (Chat E))
      → All (IsKnown jansson) saids
      → All CanBeSaid saids
      → send_all host fd (map request saids) k ≡ (ok true, k')
      → laws.outbox k' fd ≡ laws.outbox k fd ++ flatten reads
      → (feed reads [] ≡ (ok (map request saids), []))
        × (each_frame os
              (Chat E)
              (on_frame os jansson (Chat E) (on_req os jansson E) from)
              (map request saids)
              (s, g)
            ≡ (ok tt, (enqueued (map (message_from from name) saids) s, g)))
  each_frame-send_all host laws fd k k' saids reads s known a sent cut =
      let ps = map request saids in
      let fits = payloads saids a in
      let whole =
        subst (Sends host laws fd (encode_all ps) k) sent (send_all-Sends host laws fd ps k fits) in
      let bytes =
        append_cancel (laws.outbox k fd) (flatten reads) (encode_all ps) (sym cut ∙ whole) in
      (feed-encode_all reads ps fits bytes, each_frame-requests saids s known a)
