-- ===== src/Client/Linux/Main.antt =====
-- The client for Linux from its start to its exit (src/client/client.cpp).
use cpp_chat_channel.Base.{ℕ, Option, none, some, List, [], Bool, true, false, Bytes}
use cpp_chat_channel.Effects.{Outcome, ok, throw, hangs, M, bind_outcome}
use cpp_chat_channel.Os.{Fd}
use cpp_chat_channel.Client.{Host, refresh_line, cls, connect_tcp}
use cpp_chat_channel.Client.Arguments.{default_endpoint, take_arguments, entered_name}
use cpp_chat_channel.Client.Editor.{send_request}
use cpp_chat_channel.Client.Linux.{ClientJson, linux_requests, first_request}
use cpp_chat_channel.Client.Linux.Loop.{Session, handshake, rounds}
use cpp_chat_channel.Client.Linux.Terminal.{Tty, Saved, enable_raw_mode, run_handlers}

module _ (host : Host) (json : ClientJson) (tty : Tty host.Kernel) where
  abbrev pub Process : Type 0
  Process = Saved × Session host json

  -- What follows the handshake: nothing of it touches what enableRawMode has saved.
  unfoldable pub chat : ℕ → Fd → Bytes → Process → Outcome (Unit {0}) × Process
  unfolding enable_raw_mode rounds cls refresh_line
  chat fuel fd acc (saved, (c, k)) =
      let (saved', k1) = enable_raw_mode tty (saved, k) in
      let (end, (_, (c', k2))) = rounds host json fuel fd (acc, (refresh_line (cls c), k1)) in
      bind_outcome (end, (saved', (c', k2))) (λ _ t. (ok tt, (t.0, (t.1.0, host.close fd t.1.1))))

  -- What follows the handshake's loop: the exit status.
  unfoldable pub begin : ℕ → Fd → Outcome Bool → Bytes → Process → Outcome ℕ × Process
  unfolding chat
  begin fuel fd (ok true) acc t = bind_outcome (chat fuel fd acc t) (λ _ u. (ok 0, u))
  begin fuel fd (ok false) acc t = (ok 1, t)
  begin fuel fd (throw e) acc t = (throw e, t)
  begin fuel fd hangs acc t = (hangs, t)

  unfoldable pub join : ℕ → Fd → M Process ℕ
  unfolding handshake begin
  join fuel fd (saved, (c, k)) =
      let (joined, (acc, ((_, c'), k'))) = handshake host json fuel fd ([], ((false, c), k)) in
      begin fuel fd joined acc (saved, (c', k'))

  -- What follows the connection.
  unfoldable pub converse : ℕ → Fd → M Process ℕ
  unfolding send_request first_request join
  converse fuel fd (saved, (c, k)) =
      let (r, k') =
        send_request host (linux_requests json) fd hangs (first_request json c.user_name) k in
      bind_outcome (r, (saved, (c, k'))) (λ _ t. join fuel fd t)

  -- What follows connect_tcp.
  unfoldable pub start : ℕ → Option Fd → M Process ℕ
  unfolding converse
  start fuel none t = (ok 1, t)
  start fuel (some fd) t = converse fuel fd t

  -- main, with the arguments behind the program's name and the line that is read for the user name.
  unfoldable pub main : ℕ → List Bytes → Bytes → M Process ℕ
  unfolding take_arguments entered_name connect_tcp start
  main fuel args line (saved, (c, k)) =
      let (name, port) = take_arguments (λ url. url) default_endpoint args in
      let (fd, k') = connect_tcp host name port k in
      start fuel fd (saved, (record c { user_name = entered_name line }, k'))

  -- What runs when main has returned.
  unfoldable pub exit : Process → host.Kernel
  unfolding run_handlers
  exit (saved, (c, k)) = run_handlers tty saved.handlers saved k
