-- ===== src/Client/Windows/Sockets.antt =====
-- The uses of the socket library (src/client/client_win.cpp).
use cpp_chat_channel.Base.{ℕ, suc, ◌≡◌, Option, none, some, nat_eq, int_eq, Bytes, arith}
use cpp_chat_channel.Client.{Host}
use cpp_chat_channel.Client.Untouched.{Untouched}
use cpp_chat_channel.Client.Windows.Terminal.{Win, connect_address, connect_tcp}
use cpp_chat_channel.Client.Windows.Laws.{WinLaws}

module _ (host : Host) (win : Win host.Kernel) (laws : WinLaws win)
    (network : Untouched host laws.uses) where
  connect_address-uses :
      (res : Option host.Address) (n : ℕ) (k : host.Kernel)
      → laws.uses k ≡ suc n
      → laws.uses (connect_address host win res k).1
        ≡ (elim (connect_address host win res k).0 as (λ _. ℕ) [ none ↦ n | some _ ↦ suc n ])
  unfolding connect_address
  connect_address-uses none n k e = laws.cleanup_uses n k e
  connect_address-uses (some a) n k e =
      let (fd, k1) = host.socket a k in
      let k2 = (host.connect fd a k1).1 in
      ground (
        arith,
        network.socket_keeps a k,
        network.connect_keeps fd a k1,
        network.close_keeps fd k2,
        laws.cleanup_uses n k1,
        laws.cleanup_uses n (host.close fd k2),
      )

  -- Where the calls for a socket do not touch it, the socket library is in use once more than before
  -- after connect_tcp has given a socket, and as before after it has failed, at whichever call.
  pub connect_tcp_balanced :
      (name port : Bytes) (k : host.Kernel)
      → laws.uses (connect_tcp host win name port k).1
        ≡ (elim (connect_tcp host win name port k).0 as (λ _. ℕ) [
          | none ↦ laws.uses k
          | some _ ↦ suc (laws.uses k)
        ])
  unfolding connect_tcp
  connect_tcp_balanced name port k =
      let k0 = (win.wsa_startup k).1 in
      let (res, k1) = host.resolve name port k0 in
      ground (
        arith,
        laws.startup_uses k,
        laws.startup_fails k,
        network.resolve_keeps name port k0,
        connect_address-uses res (laws.uses k) k1,
      )
