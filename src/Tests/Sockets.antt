-- ===== src/Tests/Sockets.antt =====
-- The operations on sockets at concrete inputs.
use cpp_chat_channel.Base.{◌≡◌, refl, pos, List, [], ◌∷◌, arith, codes, int_eq}
use cpp_chat_channel.Base.Assoc.{contains, IsDistinct, lookup}
use cpp_chat_channel.Effects.{ok}
use cpp_chat_channel.Os.{Fd}
use cpp_chat_channel.Comm.Stream.RoundTrip.{encode}
use cpp_chat_channel.Comm.Buffers.{Communication, recv_frame, send_frame, broadcast}
use cpp_chat_channel.Comm.Buffers.Send.{Sent, send_frame-Sent}
use cpp_chat_channel.Comm.Buffers.Broadcast.{Reached, broadcast-Reached}
use cpp_chat_channel.Comm.Buffers.Receive.{Delivered, recv_frame-Delivered}
use cpp_chat_channel.Tests.System.{Machine, machine, machine_recv, machine_sends, started}

send_frame-Sent_example :
    Sent machine machine_sends
      (pos 7)
      (encode (codes "hello"))
      started
      (send_frame machine (pos 7) (codes "hello") started)
send_frame-Sent_example =
    send_frame-Sent machine machine_sends (pos 7) (codes "hello") started (omega arith)

abbrev audience : List Fd
audience = pos 7 ∷ pos 8 ∷ []

audience-IsDistinct : IsDistinct audience
unfolding contains
audience-IsDistinct = (refl, (refl, tt))

broadcast-Reached_example :
    (failed : List Fd) × (k' : Machine) × (broadcast machine audience (codes "hi") started
      ≡ (ok failed, k'))
    × Reached machine machine_sends (encode (codes "hi")) started k' audience failed
broadcast-Reached_example =
    broadcast-Reached machine machine_sends (codes "hi") audience started (omega arith)
      audience-IsDistinct

abbrev waiting : Machine
waiting = record started { inboxes = (pos 7, codes "2hi0001") ∷ [] }

abbrev half_read : Communication
half_read = record { rbuf = (pos 7, codes "000") ∷ [] }

recv_frame-Delivered_example :
    Delivered machine machine_recv
      (pos 7)
      half_read
      waiting
      (recv_frame machine 9 (pos 7) (half_read, waiting))
unfolding lookup
recv_frame-Delivered_example =
    recv_frame-Delivered machine machine_recv (pos 7) half_read waiting 9 (omega arith)
