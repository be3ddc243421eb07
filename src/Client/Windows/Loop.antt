-- ===== src/Client/Windows/Loop.antt =====
-- The run of the client for Windows: the loop over the socket and the console
-- (src/client/client_win.cpp).
use cpp_chat_channel.Base.{
  ℕ, zero, suc, Option, none, some, Bool, true, false, ◌||◌, ◌==◌, nat_eq, if◌then◌else◌, Bytes,
}
use cpp_chat_channel.Effects.{ok, hangs, M, bind_outcome}
use cpp_chat_channel.Os.{Fd}
use cpp_chat_channel.Client.{Host}
use cpp_chat_channel.Client.Frames.{recv_frames}
use cpp_chat_channel.Client.Editor.{on_key}
use cpp_chat_channel.Client.Windows.{Session, display, windows_requests}

module _ (host : Host) where
  -- 0 and 0xE0 announce a key that is ignored.
  unfoldable pub read_key : Fd → M (Session host) (Unit {0})
  unfolding on_key
  read_key fd (c, k) =
      let (key, k') = host.getch k in
      if key == 0 || key == 224
      then (ok tt, (c, (host.getch k').1))
      else on_key host windows_requests fd key (c, k')

  unfoldable pub read_socket : Bool → Fd → M (Bytes × Session host) Bool
  unfolding recv_frames
  read_socket false fd s = (ok true, s)
  read_socket true fd s = recv_frames host (display host) fd s

  unfoldable pub take_hit : Bool → Fd → Bool → M (Bytes × Session host) Bool
  unfolding read_key
  take_hit false fd running s = (ok running, s)
  take_hit true fd running (acc, s) =
      let (r, s') = read_key fd s in bind_outcome (r, (acc, s')) (λ _ t. (ok running, t))

  -- The console's part of a round.
  unfoldable pub read_console : Fd → Bool → M (Bytes × Session host) Bool
  unfolding take_hit
  read_console fd running (acc, (c, k)) =
      let (hit, k') = host.kbhit k in take_hit hit fd running (acc, (c, k'))

  -- What follows select.
  unfoldable pub take_ready : Fd → Option Bool → M (Bytes × Session host) Bool
  unfolding read_socket read_console
  take_ready fd none s = (ok false, s)
  take_ready fd (some ready) s = bind_outcome (read_socket ready fd s) (read_console fd)

  -- One round of `while (running)`: the new value of `running`.
  unfoldable pub round : Fd → M (Bytes × Session host) Bool
  unfolding take_ready
  round fd (acc, (c, k)) = let (ready, k') = host.select fd k in take_ready fd ready (acc, (c, k'))

  -- `fuel` bounds the rounds.
  unfoldable pub rounds : ℕ → Fd → M (Bytes × Session host) (Unit {0})
  unfolding round
  rounds zero fd s = (hangs, s)
  rounds (suc fuel) fd s =
      bind_outcome (round fd s) (λ running t. if running then rounds fuel fd t else (ok tt, t))
