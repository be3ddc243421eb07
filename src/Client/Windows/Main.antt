-- ===== src/Client/Windows/Main.antt =====
-- The client for Windows from its start to its exit (src/client/client_win.cpp).
use cpp_chat_channel.Base.{ℕ, Option, none, some, List, [], Bytes}
use cpp_chat_channel.Effects.{Outcome, ok, hangs, M, bind_outcome}
use cpp_chat_channel.Os.{Fd}
use cpp_chat_channel.Client.{Host, refresh_line, cls}
use cpp_chat_channel.Client.Arguments.{cut_path, default_endpoint, take_arguments, entered_name}
use cpp_chat_channel.Client.Editor.{send_request}
use cpp_chat_channel.Client.Windows.{Session, windows_requests, first_request}
use cpp_chat_channel.Client.Windows.Loop.{rounds}
use cpp_chat_channel.Client.Windows.Terminal.{
  Win, Saved, connect_tcp, enable_raw_mode, run_handlers,
}

module _ (host : Host) (win : Win host.Kernel) where
  abbrev pub Process : Type 0
  Process = Saved × Session host

  -- What follows the first request: nothing of it touches what enableRawMode has saved.
  unfoldable pub chat : ℕ → Fd → Process → Outcome (Unit {0}) × Process
  unfolding enable_raw_mode rounds cls refresh_line
  chat fuel fd (saved, (c, k)) =
      let (saved', k1) = enable_raw_mode win (saved, k) in
      let start : Session host = (refresh_line (cls c), win.nonblocking fd k1) in
      let (end, (_, (c', k2))) = rounds host fuel fd ([], start) in
      bind_outcome (end, (saved', (c', k2))) (λ _ t. (ok tt, (t.0, (t.1.0, host.close fd t.1.1))))

  -- What follows the connection: the exit status.
  unfoldable pub converse : ℕ → Fd → M Process ℕ
  unfolding send_request first_request chat
  converse fuel fd (saved, (c, k)) =
      let (r, k') =
        send_request host windows_requests fd hangs (λ now. some (first_request c.user_name now))
          k in
      bind_outcome (r, (saved, (c, k'))) (λ _ t. bind_outcome (chat fuel fd t) (λ _ u. (ok 0, u)))

  -- What follows connect_tcp.
  unfoldable pub start : ℕ → Option Fd → M Process ℕ
  unfolding converse
  start fuel none t = (ok 1, t)
  start fuel (some fd) t = converse fuel fd t

  -- main, with the arguments behind the program's name and the line that is read for the user name.
  unfoldable pub main : ℕ → List Bytes → Bytes → M Process ℕ
  unfolding take_arguments cut_path entered_name connect_tcp start
  main fuel args line (saved, (c, k)) =
      let (name, port) = take_arguments cut_path default_endpoint args in
      let (fd, k') = connect_tcp host win name port k in
      start fuel fd (saved, (record c { user_name = entered_name line }, k'))

  -- What runs when main has returned.
  unfoldable pub exit : Process → host.Kernel
  unfolding run_handlers
  exit (saved, (c, k)) = run_handlers win saved.handlers saved k
