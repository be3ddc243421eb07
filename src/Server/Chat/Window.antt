-- ===== src/Server/Chat/Window.antt =====
-- Who gets the messages of a tick (`ChatServer::resolve_broadcast`, src/server/chat_server.cpp).
use cpp_chat_channel.Base.{◌≡◌, refl, some, List, [], ◌∷◌, ◌||◌, int_eq, arith, Bytes}
use cpp_chat_channel.Base.Assoc.{contains, add, contains-add, IsDistinct}
use cpp_chat_channel.Effects.{ok}
use cpp_chat_channel.Os.{Fd, Os}
use cpp_chat_channel.Os.Laws.{SendLaws}
use cpp_chat_channel.Json.{Jansson}
use cpp_chat_channel.Comm.Buffers.{Communication}
use cpp_chat_channel.Comm.Buffers.Broadcast.{Reached, broadcast-Reached}
use cpp_chat_channel.Comm.Stream.RoundTrip.{encode, IsPayload}
use cpp_chat_channel.Tracker.{Tracker}
use cpp_chat_channel.Server.{Globals, Server}
use cpp_chat_channel.Server.Base.{mark, each_fd}
use cpp_chat_channel.Server.Base.Deletion.{at, kern}
use cpp_chat_channel.Server.Chat.{Chat, window, resolve_broadcast}

-- The marked set after all of `fds` are marked.
abbrev marks : List Fd → List Fd → List Fd
marks [] marked = marked
marks (fd ∷ fds) marked = marks fds (add fd marked)

marks-contains :
    (fds marked : List Fd) (x : Fd)
    → contains x (marks fds marked) ≡ (contains x marked || contains x fds)
unfolding contains
marks-contains [] marked x = ground arith
marks-contains (fd ∷ fds) marked x =
    ground (arith, marks-contains fds (add fd marked) x, contains-add fd x marked)

each_mark :
    (os : Os) (D : Type 0) (fds : List Fd) (s : Server D) (g : Globals os.Kernel)
    → each_fd os D (mark os D) fds (s, g)
      ≡ (ok tt, (record s { next_deletion = marks fds s.next_deletion }, g))
unfolding each_fd mark
each_mark os D [] s g = refl
each_mark os D (fd ∷ fds) s g =
    each_mark os D fds (record s { next_deletion = add fd s.next_deletion }) g

-- If the messages of a tick make a sendable text, the text is broadcast to the clients of the
-- tracker: each client has the whole frame behind what was sent to it before, or a first part of it
-- and is marked for deletion; no other connection gets a byte or is newly marked.
pub resolve_broadcast-Reached :
    (os : Os) (laws : SendLaws os) (jansson : Jansson) (E : Type 0) (s : Server (Chat E))
    (t : Tracker) (c : Communication) (g : Globals os.Kernel) (dumped : Bytes)
    → jansson.dumps (window os jansson E s.derived.cur_msgs) ≡ some dumped
    → IsPayload dumped
    → IsDistinct t.clients
    → (failed marked : List Fd) × (k : os.Kernel) × (resolve_broadcast os jansson E (at s t c, g)
        ≡ (ok tt, (record (at s t c) { next_deletion = marked }, kern g k)))
      × ((x : Fd) → contains x marked ≡ (contains x s.next_deletion || contains x failed))
      × Reached os laws (encode dumped) g.kernel k t.clients failed
unfolding resolve_broadcast
resolve_broadcast-Reached os laws jansson E s t c g dumped e h d =
    let (failed, k, b, r) = broadcast-Reached os laws dumped t.clients g.kernel h d in
    (
      failed,
      marks failed s.next_deletion,
      k,
      rw (e, b, resolve_broadcast) (each_mark os (Chat E) failed (at s t c) (kern g k)),
      marks-contains failed s.next_deletion,
      r,
    )
