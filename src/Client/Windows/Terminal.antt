-- ===== src/Client/Windows/Terminal.antt =====
-- The console and the socket library of Windows (src/client/client_win.cpp): cleanup, connect_tcp and
-- enableRawMode.
use cpp_chat_channel.Base.{
  ℕ, ◌+◌, ◌-◌, zero, suc, Option, none, some, Bool, true, false, ◌==◌, int_eq, if◌then◌else◌, Bytes,
}
use cpp_chat_channel.Os.{Fd, fd_err}
use cpp_chat_channel.Client.{Host}

abbrev pub Handle : Type 0
Handle = ℕ

-- The mode of a console handle: the flags that the client changes, of an input and of an output, and
-- the others.
pub record Mode : Type 0 where
  pub echo_input : Bool
  pub line_input : Bool
  pub virtual_terminal : Bool
  pub others : ℕ

-- Calls of the Windows API.
pub record Win (K : Type 0) : Type 0 where
  -- whether WSAStartup succeeds, and WSACleanup
  pub wsa_startup : K → Bool × K
  pub wsa_cleanup : K → K
  -- GetStdHandle: `none` is INVALID_HANDLE_VALUE
  pub std_input : K → Option Handle × K
  pub std_output : K → Option Handle × K
  -- GetConsoleMode, `none` if it fails, and SetConsoleMode
  pub get_mode : Handle → K → Option Mode × K
  pub set_mode : Handle → Mode → K → K
  -- ioctlsocket(fd, FIONBIO, &mode)
  pub nonblocking : Fd → K → K

-- g_hConsoleIn, g_hConsoleOut, g_origInMode, g_origOutMode, and how often cleanup is registered with
-- atexit.
pub record Saved : Type 0 where
  pub console_in : Option Handle
  pub console_out : Option Handle
  pub orig_in : Mode
  pub orig_out : Mode
  pub handlers : ℕ

-- newInMode and newOutMode
unfoldable pub raw_in : Mode → Mode
raw_in m = record m { echo_input = false; line_input = false }

unfoldable pub raw_out : Mode → Mode
raw_out m = record m { virtual_terminal = true }

module _ {K : Type 0} (win : Win K) where
  -- A mode is set back if its handle is valid.
  unfoldable pub set_back : Option Handle → Mode → K → K
  set_back none m k = k
  set_back (some h) m k = win.set_mode h m k

  -- cleanup
  unfoldable pub cleanup : Saved → K → K
  unfolding set_back
  cleanup s k =
      win.wsa_cleanup (set_back s.console_out s.orig_out (set_back s.console_in s.orig_in k))

  -- The variable is left as it is if GetConsoleMode fails.
  unfoldable pub read_mode : Handle → Mode → K → Mode × K
  read_mode h before k =
      let (got, k') = win.get_mode h k in (elim got [ none ↦ before | some m ↦ m ], k')

  -- enableRawMode, once both handles are valid.
  unfoldable pub set_raw : Handle → Handle → Saved × K → Saved × K
  unfolding read_mode raw_in raw_out
  set_raw i o (s, k) =
      let (orig_in, k1) = read_mode i s.orig_in k in
      let (orig_out, k2) = read_mode o s.orig_out k1 in
      (
        record {
          console_in = some i;
          console_out = some o;
          orig_in = orig_in;
          orig_out = orig_out;
          handlers = suc s.handlers;
        },
        win.set_mode o (raw_out orig_out) (win.set_mode i (raw_in orig_in) k2),
      )

  -- What follows GetStdHandle: nothing is registered unless both handles are valid.
  unfoldable pub with_handles : Option Handle → Option Handle → Saved × K → Saved × K
  unfolding set_raw
  with_handles (some i) (some o) t = set_raw i o t
  with_handles none o (s, k) = (record s { console_in = none; console_out = o }, k)
  with_handles (some i) none (s, k) = (record s { console_in = some i; console_out = none }, k)

  -- enableRawMode
  unfoldable pub enable_raw_mode : Saved × K → Saved × K
  unfolding with_handles
  enable_raw_mode (s, k) =
      let (i, k1) = win.std_input k in let (o, k2) = win.std_output k1 in with_handles i o (s, k2)

  -- exit: the handlers of atexit.
  unfoldable pub run_handlers : ℕ → Saved → K → K
  unfolding cleanup
  run_handlers zero s k = k
  run_handlers (suc n) s k = run_handlers n s (cleanup s k)

module _ (host : Host) (win : Win host.Kernel) where
  -- What follows getaddrinfo.
  unfoldable pub connect_address : Option host.Address → host.Kernel → Option Fd × host.Kernel
  connect_address none k = (none, win.wsa_cleanup k)
  connect_address (some address) k =
      let (fd, k1) = host.socket address k in
      let (connected, k2) = host.connect fd address k1 in
      if fd == fd_err
      then (none, win.wsa_cleanup k1)
      else if connected
      then (some fd, k2)
      else (none, win.wsa_cleanup (host.close fd k2))

  -- connect_tcp, without what it prints: `none` is -1.
  unfoldable pub connect_tcp : Bytes → Bytes → host.Kernel → Option Fd × host.Kernel
  unfolding connect_address
  connect_tcp name port k =
      let (started, k0) = win.wsa_startup k in
      let (res, k1) = host.resolve name port k0 in
      if started then connect_address res k1 else (none, k0)

-- get_term_width, where the argument is srWindow.Left and srWindow.Right, which is not less, or `none`
-- where GetConsoleScreenBufferInfo fails; it is what `width` of a Host stands for.
unfoldable pub get_term_width : Option (ℕ × ℕ) → ℕ
get_term_width none = 80
get_term_width (some (left, right)) = right - left + 1
