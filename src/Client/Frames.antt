-- ===== src/Client/Frames.antt =====
-- The sockets of the clients: `send_frame`, `recv_frames` (src/client/client.cpp,
-- src/client/client_win.cpp).
use cpp_chat_channel.Base.{
  ℕ, zero, suc, ◌+◌, ◌%◌, ◌^◌, ◌++◌, Option, none, some, Bool, true, false, ltb, ◌==◌, nat_eq,
  if◌then◌else◌, Bytes, length, take, drop,
}
use cpp_chat_channel.Effects.{ok, hangs, M, bind_outcome}
use cpp_chat_channel.Os.{Fd}
use cpp_chat_channel.Comm.Header.{header, header_length}
use cpp_chat_channel.Client.{Host, Read, bytes, interrupted, failed}

module _ (host : Host) where
  -- while (sent < payload.size()) { … }
  unfoldable pub send_rest : ℕ → Fd → Bytes → ℕ → M host.Kernel Bool
  send_rest zero fd payload sent k = (hangs, k)
  send_rest (suc fuel) fd payload sent k = elim (ltb sent (length payload)) [
    | false ↦ (ok true, k)
    | true ↦
        let (r, k') = host.send fd (drop sent payload) k in
        elim r [
          | none ↦ (ok false, k')
          | some n ↦
              let rest = send_rest fuel fd payload (sent + n) k' in
              if n == 0 then (ok false, k') else rest
        ]
  ]

  -- A round sends a byte at least, so one round more than there are bytes is enough.
  unfoldable pub send_frame : Fd → Bytes → M host.Kernel Bool
  unfolding send_rest
  send_frame fd payload k =
      let (r, k') = host.send fd (header (length payload % 2 ^ 32)) k in
      elim r [
        | none ↦ (ok false, k')
        | some n ↦
            let rest = send_rest (suc (length payload)) fd payload 0 k' in
            if n == 4 then rest else (ok false, k')
      ]

-- What a round of the loop finds: too few bytes, a header that throws, or a payload of so many bytes.
pub data Peek : Type 0 where
  pending : Peek
  unreadable : Peek
  whole : ℕ → Peek

-- The length has 32 bits, and so has `4 + len`.
unfoldable pub peek_at : Option ℕ → ℕ → Peek
peek_at none size = unreadable
peek_at (some len) size = if ltb size ((4 + len) % 2 ^ 32) then pending else whole len

unfoldable pub peek : Bytes → Peek
unfolding peek_at
peek acc = if ltb (length acc) 4 then pending else peek_at (header_length (take 4 acc)) (length acc)

module _ {S : Type 0} (display : Bytes → M S Bool) where
  -- while (acc.size() >= 4) { … }; `display` is what is done with a payload, and whether to go on.
  unfoldable pub take_loop : ℕ → M (Bytes × S) Bool
  unfolding peek
  take_loop zero s = (hangs, s)
  take_loop (suc fuel) (acc, s) = elim (peek acc) [
    | pending ↦ (ok true, (acc, s))
    | unreadable ↦ (ok false, (acc, s))
    | whole len ↦
        bind_outcome (let (r, s') = display (take len (drop 4 acc)) s in (r, (acc, s'))) (λ more t.
          if more then take_loop fuel (drop ((4 + len) % 2 ^ 32) t.0, t.1) else (ok false, t))
  ]

  -- A round that does not wrap erases four bytes at least.
  unfoldable pub take_frames : M (Bytes × S) Bool
  unfolding take_loop
  take_frames (acc, s) = take_loop (suc (length acc)) (acc, s)

  -- What follows acc.append(buf, n).
  unfoldable pub take_more : Bytes → M (Bytes × S) Bool
  unfolding take_frames
  take_more b (acc, s) = take_frames (acc ++ b, s)

  -- What follows recv.
  unfoldable pub take_read : Read → M (Bytes × S) Bool
  unfolding take_more
  take_read interrupted s = (ok true, s)
  take_read failed s = (ok false, s)
  take_read (bytes b) s = if length b == 0 then (ok false, s) else take_more b s

module _ (host : Host) {S : Type 0} (display : Bytes → M (S × host.Kernel) Bool) where
  -- recv_frames: whether the connection goes on.
  unfoldable pub recv_frames : Fd → M (Bytes × (S × host.Kernel)) Bool
  unfolding take_read
  recv_frames fd (acc, (s, k)) =
      let (r, k') = host.recv fd 4096 k in take_read display r (acc, (s, k'))
