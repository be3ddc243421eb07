-- ===== src/Comm/Buffers.antt =====
-- The class `Communication` (src/libs/communication.h, src/libs/communication.cpp): its buffers, and
-- its operations on the sockets.
pub mod Reading
pub mod Receive
pub mod Rounds
pub mod Send
pub mod Untouched
pub mod Broadcast
use cpp_chat_channel.Base.{
  ℕ, zero, suc, ◌+◌, ◌%◌, ◌^◌, Option, none, some, List, [], ◌∷◌, ◌++◌, true, false, ltb, ◌==◌,
  nat_eq, int_eq, if◌then◌else◌, Bytes, length, drop,
}
use cpp_chat_channel.Base.Assoc.{lookup, insert, erase_key}
use cpp_chat_channel.Effects.{
  Outcome, ok, throw, hangs, M, ◌>>=◌, ◌>>◌, bind_outcome, return, raise, try_catch, on_first,
  recv_failed, disconnected, frame_too_large, header_not_sent, minus_frame,
}
use cpp_chat_channel.Os.{Fd, Os, received, would_block, recv_error}
use cpp_chat_channel.Comm.Header.{header}
use cpp_chat_channel.Comm.Stream.{max_frame_size, parse_frames}

-- The accumulation buffers, one for each connection.
pub record Communication : Type 0 where
  pub rbuf : List (Fd × Bytes)

-- rbuf[fd]: an empty buffer is made where there is none.
unfoldable pub buffer : Communication → Fd → Bytes
buffer c fd = elim (lookup fd c.rbuf) [ none ↦ [] | some acc ↦ acc ]

unfoldable pub set_buffer : Communication → Fd → Bytes → Communication
set_buffer c fd acc = record c { rbuf = insert fd acc c.rbuf }

module _ (os : Os) where
  -- The first loop of `recv_frame`: it reads until a read brings less than the buffer holds.
  pub recv_loop : ℕ → Fd → M (Bytes × os.Kernel) (Unit {0})
  recv_loop zero fd s = (hangs, s)
  recv_loop (suc fuel) fd (acc, k) =
      let (r, k') = os.recv fd 4096 k in
      elim r [
        | would_block ↦ (ok tt, (acc, k'))
        | recv_error ↦ (throw recv_failed, (acc, k'))
        | received b ↦
            let more = recv_loop fuel fd (acc ++ b, k') in
            if length b == 0
            then (throw disconnected, (acc, k'))
            else if ltb (length b) 4096
            then (ok tt, (acc ++ b, k'))
            else more
      ]

  -- The body of `recv_frame` over the buffer that `acc` refers to.
  pub recv_body : ℕ → Fd → M (Bytes × os.Kernel) (List Bytes)
  recv_body fuel fd = do recv_loop fuel fd; on_first parse_frames

  -- `fuel` bounds the reads of one call.
  pub recv_frame : ℕ → Fd → M (Communication × os.Kernel) (List Bytes)
  recv_frame fuel fd (c, k) =
      let (frames, (acc, k')) = recv_body fuel fd (buffer c fd, k) in
      (frames, (set_buffer c fd acc, k'))

  -- while (total < payload.size()) { … }
  unfoldable pub send_loop : ℕ → Fd → Bytes → ℕ → M os.Kernel (Unit {0})
  send_loop zero fd payload total k = (hangs, k)
  send_loop (suc fuel) fd payload total k = elim (ltb total (length payload)) [
    | false ↦ (ok tt, k)
    | true ↦
        let (sent, k') = os.send fd (drop total payload) k in
        elim sent [
          | none ↦ (throw minus_frame, k')
          | some n ↦
              let rest = send_loop fuel fd payload (total + n) k' in
              if n == 0 then (throw minus_frame, k') else rest
        ]
  ]

  -- A round sends a byte at least, so one round more than there are bytes is enough.
  unfoldable pub send_payload : Fd → Bytes → M os.Kernel (Unit {0})
  send_payload fd payload = send_loop (suc (length payload)) fd payload 0

  unfoldable pub send_header : Fd → ℕ → M os.Kernel (Unit {0})
  send_header fd len k =
      let (sent, k') = os.send fd (header len) k in
      elim sent [
        | none ↦ (throw header_not_sent, k')
        | some n ↦ if n == 4 then (ok tt, k') else (throw header_not_sent, k')
      ]

  unfoldable pub send_frame : Fd → Bytes → M os.Kernel (Unit {0})
  send_frame fd payload =
      let len = length payload % 2 ^ 32 in
      if len == 0
      then return tt
      else if ltb max_frame_size len
      then raise frame_too_large
      else (do send_header fd len; send_payload fd payload)

  -- The sockets that failed, in the order of the clients.
  pub broadcast : List Fd → Bytes → M os.Kernel (List Fd)
  broadcast [] payload = return []
  broadcast (fd ∷ clients) payload = do
    failed ← try_catch (send_frame fd payload >> return []) (λ e. return (fd ∷ []))
    later ← broadcast clients payload
    return (failed ++ later)

unfoldable pub clear_buffer : Fd → Communication → Communication
clear_buffer fd c = record c { rbuf = erase_key fd c.rbuf }
