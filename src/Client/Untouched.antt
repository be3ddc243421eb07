-- ===== src/Client/Untouched.antt =====
-- What the calls for a client's socket leave as it is (src/client/client.cpp, src/client/client_win.cpp).
use cpp_chat_channel.Base.{
  ℕ, zero, suc, ◌≡◌, refl, Option, Bytes, length, drop, ◌%◌, ◌^◌, arith, nat_eq, int_eq,
}
use cpp_chat_channel.Effects.{Outcome}
use cpp_chat_channel.Os.{Fd}
use cpp_chat_channel.Comm.Header.{header}
use cpp_chat_channel.Client.{Host, connect_tcp}
use cpp_chat_channel.Client.Frames.{send_rest, send_frame}
use cpp_chat_channel.Client.Editor.{Requests, send_request}

module _ (host : Host) {X : Type 0} (view : host.Kernel → X) where
  -- The calls for a socket do not touch a part of the system.
  pub record Untouched : Type 0 where
    pub resolve_keeps :
        (name port : Bytes) (k : host.Kernel) → view (host.resolve name port k).1 ≡ view k
    pub socket_keeps : (a : host.Address) (k : host.Kernel) → view (host.socket a k).1 ≡ view k
    pub connect_keeps :
        (fd : Fd) (a : host.Address) (k : host.Kernel) → view (host.connect fd a k).1 ≡ view k
    pub close_keeps : (fd : Fd) (k : host.Kernel) → view (host.close fd k) ≡ view k
    pub recv_keeps : (fd : Fd) (n : ℕ) (k : host.Kernel) → view (host.recv fd n k).1 ≡ view k
    pub send_keeps : (fd : Fd) (b : Bytes) (k : host.Kernel) → view (host.send fd b k).1 ≡ view k
    pub clock_keeps : (k : host.Kernel) → view (host.now_ms k).1 ≡ view k

module _ (host : Host) {X : Type 0} (view : host.Kernel → X) (network : Untouched host view) where
  pub connect_tcp-Untouched :
      (name port : Bytes) (k : host.Kernel) → view (connect_tcp host name port k).1 ≡ view k
  unfolding connect_tcp
  connect_tcp-Untouched name port k = grind (
    arith, network.resolve_keeps, network.socket_keeps, network.connect_keeps, network.close_keeps,
  )

  send_rest-Untouched :
      (fuel : ℕ) (fd : Fd) (b : Bytes) (sent : ℕ) (k : host.Kernel)
      → view (send_rest host fuel fd b sent k).1 ≡ view k
  unfolding send_rest
  send_rest-Untouched zero fd b sent k = refl
  send_rest-Untouched (suc fuel) fd b sent k =
      grind (arith, network.send_keeps fd (drop sent b) k, send_rest-Untouched fuel fd b)

  send_frame-Untouched :
      (fd : Fd) (b : Bytes) (k : host.Kernel) → view (send_frame host fd b k).1 ≡ view k
  unfolding send_frame
  send_frame-Untouched fd b k =
      let header_sent = network.send_keeps fd (header (length b % 2 ^ 32)) k in
      let k' = (host.send fd (header (length b % 2 ^ 32)) k).1 in
      ground (arith, header_sent, send_rest-Untouched (suc (length b)) fd b 0 k')

  pub send_request-Untouched :
      (requests : Requests) (fd : Fd) (e : Outcome (Unit {0})) (f : ℕ → Option Bytes)
      (k : host.Kernel)
      → view (send_request host requests fd e f k).1 ≡ view k
  unfolding send_request
  send_request-Untouched requests fd e f k =
      grind (arith, network.clock_keeps k, send_frame-Untouched fd)
