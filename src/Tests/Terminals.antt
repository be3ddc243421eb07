-- ===== src/Tests/Terminals.antt =====
-- The clients' terminals at concrete inputs.
use cpp_chat_channel.Base.{
  ℕ, suc, ◌-◌, ◌==◌, nat_eq, false, ◌≡◌, refl, arith, none, some, List, [], ◌∷◌, Bool, true,
  if◌then◌else◌, pos, Bytes, codes, length, int_eq,
}
use cpp_chat_channel.Comm.Header.{header, header_length, stoul}
use cpp_chat_channel.Text.{same_text}
use cpp_chat_channel.Effects.{Outcome}
use cpp_chat_channel.Client.{Host, bytes, Console}
use cpp_chat_channel.Client.Linux.{ClientJson}
use cpp_chat_channel.Client.Windows.Terminal.{Handle, Mode, Win, connect_tcp}
use cpp_chat_channel.Client.Windows.Laws.{WinLaws}
use cpp_chat_channel.Client.Windows.Sockets.{connect_tcp_balanced}
use cpp_chat_channel.Client.Windows.Main as Windows
use cpp_chat_channel.Client.Windows.Restored.{modes, unsaved, console_restored}
use cpp_chat_channel.Client.Linux.Terminal.{Termios, Tty}
use cpp_chat_channel.Client.Linux.Main as Linux
use cpp_chat_channel.Client.Linux.Main.{Process, exit}
use cpp_chat_channel.Client.Linux.Restored.{TtyLaws, main_restores}
use cpp_chat_channel.Client.Untouched.{Untouched}

-- A terminal beside a socket to which no connection can be made twice, with modes of its own.
abbrev Screen : Type 0
Screen = Termios × List Bytes

abbrev usual : Termios
usual = record { echo = true; icanon = true; vmin = 1; vtime = 0; rest = codes "s" }

abbrev tty : Tty Screen
tty = record { tcgetattr = λ k. (some k.0, k); tcsetattr = λ t k. (t, k.1) }

abbrev tty_laws : TtyLaws tty
tty_laws = record {
  modes = λ k. k.0;
  get_gives = λ k. refl;
  get_keeps = λ k. refl;
  set_sets = λ t k. refl;
}

-- The server's frames, one for each call of recv.
abbrev wired : Host
wired = record {
  Kernel = Screen;
  Address = Unit {0};
  resolve = λ name port k. (some tt, k);
  socket = λ address k. (pos 3, k);
  connect = λ fd address k. (true, k);
  close = λ fd k. k;
  recv = λ fd n k. elim k.1 [ [] ↦ (bytes [], k) | b ∷ bs ↦ (bytes b, (k.0, bs)) ];
  send = λ fd b k. (some (length b), k);
  now_ms = λ k. (5, k);
  width = λ k. (80, k);
  poll = λ fd k. (some (true, false), k);
  key = λ k. (none, k);
  select = λ fd k. (none, k);
  kbhit = λ k. (false, k);
  getch = λ k. (0, k);
}

network : Untouched wired tty_laws.modes
network = record {
  resolve_keeps = λ name port k. refl;
  socket_keeps = λ a k. refl;
  connect_keeps = λ fd a k. refl;
  close_keeps = λ fd k. refl;
  recv_keeps = λ fd n k. ground arith;
  send_keeps = λ fd b k. refl;
  clock_keeps = λ k. refl;
}

-- Every object is the one that says that the client has joined.
abbrev joins_json : ClientJson
joins_json = record {
  Json = Bytes;
  loadb = λ payload. some payload;
  elements = λ obj. none;
  is_object = λ obj. true;
  string_in =
      λ obj key. some (if same_text key (codes "type") then codes "system" else codes "join");
  integer_in = λ obj key. none;
  packed = λ fields. some (codes "{}");
}

abbrev quiet : Console
quiet = record { input_buffer = []; user_name = []; channel_id = pos 0; screen = [] }

abbrev ready : Screen
ready = (usual, codes "0002{}" ∷ [])

-- The client joins, its loop ends with the connection, and it returns 0.
abbrev run_once : Outcome ℕ × Process wired joins_json tty
run_once =
    Linux.main wired joins_json tty 10 [] (codes "bob")
      (record { orig_termios = usual; handlers = 0 }, (quiet, ready))

main_restores_example : tty_laws.modes (exit wired joins_json tty run_once.1) ≡ usual
unfolding Linux.main header header_length stoul
main_restores_example =
    main_restores wired joins_json tty tty_laws network 10 [] (codes "bob") usual quiet ready 0
      run_once.1 refl

-- A console with the handles 1 and 2.
abbrev Desk : Type 0
Desk = (Handle → Mode) × ℕ

abbrev usual_modes : Handle → Mode
usual_modes h = record {
  echo_input = true;
  line_input = true;
  virtual_terminal = false;
  others = h;
}

abbrev set_desk : Handle → Mode → Desk → Desk
set_desk h m (modes, n) = (λ x. if h == x then m else modes x, n)

abbrev desk : Win Desk
desk = record {
  wsa_startup = λ k. (true, (k.0, suc k.1));
  wsa_cleanup = λ k. (k.0, k.1 - 1);
  std_input = λ k. (some 1, k);
  std_output = λ k. (some 2, k);
  get_mode = λ h k. (some (k.0 h), k);
  set_mode = set_desk;
  nonblocking = λ fd k. k;
}

desk_laws : WinLaws desk
desk_laws = record {
  input = 1;
  output = 2;
  mode = λ h k. k.0 h;
  uses = λ k. k.1;
  input_gives = λ k. refl;
  output_gives = λ k. refl;
  get_input = λ k. refl;
  get_output = λ k. refl;
  set_sets = λ h other m k. refl;
  startup_mode = λ h k. refl;
  cleanup_mode = λ h k. refl;
  startup_uses = λ k e. refl;
  startup_fails = λ k e. ground arith;
  cleanup_uses = λ n k e. ground arith;
}

-- No connection can be made if `reachable` is false; select fails at once.
abbrev office : Bool → Host
office reachable = record {
  Kernel = Desk;
  Address = Unit {0};
  resolve = λ name port k. (some tt, k);
  socket = λ address k. (pos 3, k);
  connect = λ fd address k. (reachable, k);
  close = λ fd k. k;
  recv = λ fd n k. (bytes [], k);
  send = λ fd b k. (some (length b), k);
  now_ms = λ k. (5, k);
  width = λ k. (80, k);
  poll = λ fd k. (none, k);
  key = λ k. (none, k);
  select = λ fd k. (none, k);
  kbhit = λ k. (false, k);
  getch = λ k. (0, k);
}

office_network :
    {X : Type 0} (reachable : Bool) (view : Desk → X) → Untouched (office reachable) view
office_network reachable view = record {
  resolve_keeps = λ name port k. refl;
  socket_keeps = λ a k. refl;
  connect_keeps = λ fd a k. refl;
  close_keeps = λ fd k. refl;
  recv_keeps = λ fd n k. refl;
  send_keeps = λ fd b k. refl;
  clock_keeps = λ k. refl;
}

abbrev at_start : Desk
at_start = (usual_modes, 0)

-- The connection is refused, and the library is not in use any more.
connect_tcp_balanced_example :
    desk_laws.uses (connect_tcp (office false) desk (codes "h") (codes "1") at_start).1 ≡ 0
unfolding connect_tcp desk_laws
connect_tcp_balanced_example =
    connect_tcp_balanced (office false) desk desk_laws (office_network false desk_laws.uses)
      (codes "h") (codes "1") at_start

abbrev win_once : Outcome ℕ × Windows.Process (office true) desk
win_once =
    Windows.main (office true) desk 10 [] (codes "bob")
      (unsaved (usual_modes 0) (usual_modes 0), (quiet, at_start))

console_restored_example :
    modes desk desk_laws (Windows.exit (office true) desk win_once.1)
    ≡ (usual_modes 1, usual_modes 2)
unfolding Windows.main desk_laws header
console_restored_example =
    console_restored (office true) desk desk_laws (office_network true (modes desk desk_laws)) 10 []
      (codes "bob") (usual_modes 0) (usual_modes 0) quiet at_start 0 win_once.1 refl
