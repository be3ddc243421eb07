-- ===== src/Server/Lobby/Kept.antt =====
-- The worker of a room leaves its lock as it finds it (src/server/channel.cpp).
use cpp_chat_channel.Base.{ℕ, ◌≡◌, refl, List, [], ◌∷◌, Bool, Bytes, arith, nat_eq, int_eq}
use cpp_chat_channel.Effects.{bind_outcome, ◌>>◌}
use cpp_chat_channel.Os.{Fd, Os, Event}
use cpp_chat_channel.Json.{Jansson}
use cpp_chat_channel.Comm.Buffers.{broadcast}
use cpp_chat_channel.Server.Base as Base
use cpp_chat_channel.Server.Base.{Method, try_delete, close_fd, clear_fd, each_fd, mark, each_event}
use cpp_chat_channel.Server.Base.Kept.{
  Part, Keeps, bind_kept, Keeps-then, try_delete-Keeps, each_fd-Keeps, each_event-Keeps, mark-Keeps,
  on_recv-Keeps,
}
use cpp_chat_channel.Server.Typed.{on_frame}
use cpp_chat_channel.Server.Chat as Chat
use cpp_chat_channel.Server.Chat.{
  Chat, Message, forget_name, resolve_messages, resolve_timestamps, resolve_broadcast,
}
use cpp_chat_channel.Server.Channel.{
  Room, with_room, enqueue, announce_leave, delete_member, resolve_deletion, on_req, on_accept,
}
use cpp_chat_channel.Server.Lobby.{room_hooks}
use cpp_chat_channel.Server.Channel.Worker.{
  join_one, leave_one, each_message, stop_if_empty, resolve_pool,
}

-- The lock of a room.
abbrev pub lock_of : Part (Chat Room) Bool
lock_of = record {
  of = λ s. s.derived.more.pool_locked;
  of_tracker = λ s t. refl;
  of_comm = λ s c. refl;
  of_marks = λ s fds. refl;
}

module _ (os : Os) where
  enqueue-Keeps : (item : Message) → Keeps os lock_of (enqueue os item)
  unfolding enqueue
  enqueue-Keeps item t = refl

  join_one-Keeps : (item : Message) → Keeps os lock_of (join_one os item)
  unfolding join_one enqueue
  join_one-Keeps item (s, g) = ground arith

  leave_one-Keeps : (item : Message) → Keeps os lock_of (leave_one os item)
  unfolding leave_one enqueue
  leave_one-Keeps item (s, g) = ground arith

  each_message-Keeps :
      (body : Message → Method os (Chat Room) (Unit {0})) (items : List Message)
      → ((item : Message) → Keeps os lock_of (body item))
      → Keeps os lock_of (each_message os body items)
  unfolding each_message
  each_message-Keeps body [] k = λ t. refl
  each_message-Keeps body (item ∷ items) k =
      Keeps-then os lock_of (body item) (each_message os body items) (k item)
        (each_message-Keeps body items k)

  stop_if_empty-Keeps : Keeps os lock_of (stop_if_empty os)
  unfolding stop_if_empty
  stop_if_empty-Keeps (s, g) = ground arith

  -- A worker's round leaves the lock as it finds it.
  pub resolve_pool-Keeps : Keeps os lock_of (resolve_pool os)
  unfolding resolve_pool
  resolve_pool-Keeps (s, g) =
      let r = s.derived.more in
      let taken = with_room s (record r { join_pool = []; leave_pool = [] }) in
      let leaves = each_message os (leave_one os) r.leave_pool in
      let joins = each_message os (join_one os) r.join_pool in
      let worked =
        Keeps-then os lock_of (joins >> leaves) (stop_if_empty os)
          (Keeps-then os lock_of joins leaves
            (each_message-Keeps (join_one os) r.join_pool join_one-Keeps)
            (each_message-Keeps (leave_one os) r.leave_pool leave_one-Keeps))
          stop_if_empty-Keeps (taken, g) in
      ground (arith, worked)

  -- So do the deletions, the messages and the requests of a room.
  announce_leave-Keeps : (fd : Fd) → Keeps os lock_of (announce_leave os fd)
  unfolding announce_leave enqueue
  announce_leave-Keeps fd t = refl

  module _ (jansson : Jansson) where
    delete_member-Keeps : (fd : Fd) → Keeps os lock_of (delete_member os jansson fd)
    unfolding delete_member forget_name close_fd clear_fd
    delete_member-Keeps fd =
        let last =
          forget_name os jansson Room fd
          >> (close_fd os (Chat Room) fd >> clear_fd os (Chat Room) fd) in
        let deletes = try_delete os (Chat Room) fd in
        let ends : Keeps os lock_of last = λ t. ground arith in
        Keeps-then os lock_of (announce_leave os fd) (deletes >> last) (announce_leave-Keeps fd)
          (Keeps-then os lock_of deletes last (try_delete-Keeps os lock_of fd) ends)

    pub room_deletion-Keeps : Keeps os lock_of (resolve_deletion os jansson)
    unfolding resolve_deletion
    room_deletion-Keeps (s, g) = ground (
      arith,
      each_fd-Keeps os lock_of (delete_member os jansson) s.next_deletion delete_member-Keeps
          (s, g),
    )

    resolve_broadcast-Keeps : Keeps os lock_of (resolve_broadcast os jansson Room)
    unfolding resolve_broadcast
    resolve_broadcast-Keeps (s, g) = grind (arith, marked)
      where
        marked :
            (fds : List Fd) (dumped : Bytes)
            → let (r, k) = broadcast os fds dumped g.kernel in
              (bind_outcome
                (r, (s, record g { kernel = k }))
                (each_fd os (Chat Room) (mark os (Chat Room)))).1.0.derived.more.pool_locked
              ≡ s.derived.more.pool_locked
        marked fds dumped =
            let (r, k) = broadcast os fds dumped g.kernel in
            bind_kept os lock_of (r, (s, record g { kernel = k }))
              (each_fd os (Chat Room) (mark os (Chat Room)))
              (λ failed.
                each_fd-Keeps os lock_of (mark os (Chat Room)) failed (mark-Keeps os lock_of))

    pub resolve_messages-Keeps : Keeps os lock_of (resolve_messages os jansson Room)
    unfolding resolve_messages resolve_timestamps
    resolve_messages-Keeps =
        Keeps-then os lock_of (resolve_timestamps os jansson Room)
          (resolve_broadcast os jansson Room) (λ t. refl) resolve_broadcast-Keeps

    on_req-Keeps :
        (fd : Fd) (target : Bytes) (root : jansson.Json)
        → Keeps os lock_of (on_req os jansson fd target root)
    unfolding on_req Chat.on_req
    on_req-Keeps fd target root (s, g) = ground arith

    on_frame-Keeps :
        (fd : Fd) (frame : Bytes)
        → Keeps os lock_of (on_frame os jansson (Chat Room) (on_req os jansson) fd frame)
    unfolding on_frame
    on_frame-Keeps fd frame s = grind (arith, on_req-Keeps)

    pub events-Keeps :
        (reads : ℕ) (evs : List Event)
        → Keeps os lock_of (each_event os (Chat Room) (room_hooks os jansson reads) evs)
    unfolding on_accept Base.on_disconnect
    events-Keeps reads evs = each_event-Keeps os lock_of (room_hooks os jansson reads) evs (
      room_deletion-Keeps,
      λ fd t. refl,
      λ fd. mark-Keeps os lock_of fd,
      λ fd.
          on_recv-Keeps os lock_of reads (on_frame os jansson (Chat Room) (on_req os jansson)) fd
            (on_frame-Keeps fd),
    )
