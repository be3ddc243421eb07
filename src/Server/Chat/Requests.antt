-- ===== src/Server/Chat/Requests.antt =====
-- What a client's frame makes of a chat server's queue (src/server/chat_server.cpp,
-- src/server/typed_frame_server.cpp).
use cpp_chat_channel.Base.{
  ◌≡◌, Option, inl, inr, Bool-cases, Option-cases, refl, none, some, true, Bytes, codes,
}
use cpp_chat_channel.Effects.{Outcome, ok}
use cpp_chat_channel.Os.{Fd, Os}
use cpp_chat_channel.Json.{Jansson}
use cpp_chat_channel.Dto.{user, MessageReqDto}
use cpp_chat_channel.Queue.{push}
use cpp_chat_channel.Server.{Globals, Server, State}
use cpp_chat_channel.Server.Users.{get_user_name}
use cpp_chat_channel.Text.{c_str}
use cpp_chat_channel.Server.Typed.{on_frame}
use cpp_chat_channel.Server.Chat.{Chat, is_message, request_of, on_req}

module _ (os : Os) (jansson : Jansson) (E : Type 0) (from : Fd) where
  -- The frame is a message command with a text and a time stamp, from a connection with a name, and
  -- `req` is that message under that name.
  pub record IsRequest (frame : Bytes) (g : Globals os.Kernel) (req : MessageReqDto) : Type 0 where
    pub root : jansson.Json
    pub kind : Bytes
    pub parsed : jansson.loads (c_str frame) ≡ some root
    pub typed : jansson.string_at root (codes "type") ≡ some kind
    pub command : is_message kind ≡ true
    pub has_text : jansson.string_at root (codes "text") ≡ some req.text
    pub has_time : jansson.integer_at root (codes "timestamp") ≡ some req.timestamp
    pub named : get_user_name from g ≡ some req.user_name
    pub from_user : req.type ≡ user
    pub no_channel : req.channel_id ≡ 0

  -- What a frame does to a server, for each frame.
  pub data Posts (frame : Bytes) (s : Server (Chat E)) (g : Globals os.Kernel)
      : Outcome (Unit {0}) × State os.Kernel (Chat E) → Type 0 where
    ignored : ((req : MessageReqDto) → ¬ IsRequest frame g req) → Posts frame s g (ok tt, (s, g))
    posted :
        (req : MessageReqDto)
        → IsRequest frame g req
        → Posts frame s g (
          ok tt,
          (record s { derived = record (s.derived) { mq = push (from, req) s.derived.mq } }, g),
        )

  -- What is done with the answer of `request_of`.
  abbrev after_request :
      Server (Chat E)
      → Globals os.Kernel
      → Option MessageReqDto
      → Outcome (Unit {0}) × State os.Kernel (Chat E)
  after_request s g none = (ok tt, (s, g))
  after_request s g (some req) =
      (ok tt, (record s { derived = record (s.derived) { mq = push (from, req) s.derived.mq } }, g))

  request_of-Posts :
      (frame : Bytes) (s : Server (Chat E)) (g : Globals os.Kernel) (root : jansson.Json)
      (kind : Bytes)
      → jansson.loads (c_str frame) ≡ some root
      → jansson.string_at root (codes "type") ≡ some kind
      → is_message kind ≡ true
      → Posts frame s g (after_request s g (request_of os jansson E from root g))
  unfolding request_of
  request_of-Posts frame s g root kind e k m =
      elim (Option-cases (jansson.string_at root (codes "text"))) [
        | inl t ↦ rw (t, request_of) (ignored (λ req q. cc (e, q.parsed, q.has_text, t)))
        | inr (text, t) ↦ elim (Option-cases (jansson.integer_at root (codes "timestamp"))) [
          | inl i ↦ rw (t, i, request_of) (ignored (λ req q. cc (e, q.parsed, q.has_time, i)))
          | inr (time, i) ↦ elim (Option-cases (get_user_name from g)) [
            | inl n ↦ rw (t, i, n, request_of) (ignored (λ req q. cc (n, q.named)))
            | inr (name, n) ↦
                rw (t, i, n, request_of)
                  (posted _ (record {
                    root = root;
                    kind = kind;
                    parsed = e;
                    typed = k;
                    command = m;
                    has_text = t;
                    has_time = i;
                    named = n;
                    from_user = refl;
                    no_channel = refl;
                  }))
          ]
        ]
      ]

  -- Every frame of a client returns from `on_frame` of a chat server. It puts one message into the
  -- queue, under the connection's own name, if it is a message request of a connection with a name;
  -- any other frame changes nothing.
  pub on_frame-Posts :
      (frame : Bytes) (s : Server (Chat E)) (g : Globals os.Kernel)
      → Posts frame s g (on_frame os jansson (Chat E) (on_req os jansson E) from frame (s, g))
  unfolding on_frame on_req request_of
  on_frame-Posts frame s g = elim (Option-cases (jansson.loads (c_str frame))) [
    | inl e ↦ rw (e, on_frame) (ignored (λ req q. cc (e, q.parsed)))
    | inr (root, e) ↦ elim (Option-cases (jansson.string_at root (codes "type"))) [
      | inl k ↦ rw (e, k, on_frame) (ignored (λ req q. cc (e, q.parsed, q.typed, k)))
      | inr (kind, k) ↦ elim (Bool-cases (is_message kind)) [
        | inr m ↦
            rw (e, k, m, on_frame, on_req)
              (ignored (λ req q. cc (e, k, m, q.parsed, q.typed, q.command)))
        | inl m ↦ rw (e, k, m, on_frame, on_req) (request_of-Posts frame s g root kind e k m)
      ]
    ]
  ]
