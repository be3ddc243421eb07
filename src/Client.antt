-- ===== src/Client.antt =====
-- The clients (src/client/client.cpp for Linux, src/client/client_win.cpp for Windows): what they ask of
-- the system, their global variables, and what they print. Where both have the same function, it is
-- modelled once.
pub mod Arguments
pub mod Endpoints
pub mod Frames
pub mod Reader
pub mod Editor
pub mod Typing
pub mod Untouched
pub mod Sent
pub mod Quoted
pub mod Linux
pub mod Windows
pub mod Escape
pub mod Display
use cpp_chat_channel.Base.{
  ℕ, zero, suc, ◌-◌, ◌/◌, ◌++◌, Option, none, some, List, [], ◌∷◌, Bool, ◌==◌, int_eq,
  if◌then◌else◌, ℤ, Bytes, codes, length,
}
use cpp_chat_channel.Base.Decimal.{to_string}
use cpp_chat_channel.Os.{Fd, fd_err}

-- recv(): bytes (none of them at the end of the stream), EINTR or WSAEWOULDBLOCK, another error.
pub data Read : Type 0 where
  bytes : Bytes → Read
  interrupted : Read
  failed : Read

-- The calls of a client. None of them is in the repository.
pub record Host : Type 1 where
  pub Kernel : Type 0
  pub Address : Type 0
  -- getaddrinfo(host, port, …): `none` if it fails
  pub resolve : Bytes → Bytes → Kernel → Option Address × Kernel
  -- socket(…): -1 if it fails; connect(fd, …): whether it succeeds
  pub socket : Address → Kernel → Fd × Kernel
  pub connect : Fd → Address → Kernel → Bool × Kernel
  pub close : Fd → Kernel → Kernel
  -- recv(fd, buf, n, 0) and send(fd, bytes, 0): `none` is -1
  pub recv : Fd → ℕ → Kernel → Read × Kernel
  pub send : Fd → Bytes → Kernel → Option ℕ × Kernel
  -- the system clock, in milliseconds, and the width of the terminal
  pub now_ms : Kernel → ℕ × Kernel
  pub width : Kernel → ℕ × Kernel
  -- poll() on the socket and the keyboard: which of them can be read; `none` is -1
  pub poll : Fd → Kernel → Option (Bool × Bool) × Kernel
  -- read(STDIN_FILENO, &c, 1): `none` unless it reads a byte
  pub key : Kernel → Option ℕ × Kernel
  -- select() on the socket: whether it can be read, `none` on an error; _kbhit() and _getch()
  pub select : Fd → Kernel → Option Bool × Kernel
  pub kbhit : Kernel → Bool × Kernel
  pub getch : Kernel → ℕ × Kernel

-- g_input_buffer, g_user_name, g_channel_id, and what std::cout was given so far.
pub record Console : Type 0 where
  pub input_buffer : Bytes
  pub user_name : Bytes
  pub channel_id : ℤ
  pub screen : Bytes

unfoldable pub print : Bytes → Console → Console
print text c = record c { screen = c.screen ++ text }

-- _EC_, _CR_, _CB_, _CY_ (libs/util.h)
abbrev pub color_end : Bytes
color_end = 27 ∷ codes "[0m"

abbrev pub color_red : Bytes
color_red = 27 ∷ codes "[0;31m"

abbrev pub color_blue : Bytes
color_blue = 27 ∷ codes "[0;34m"

abbrev pub color_yellow : Bytes
color_yellow = 27 ∷ codes "[0;33m"

-- "\r\033[K"
abbrev pub clear_line : Bytes
clear_line = 13 ∷ 27 ∷ codes "[K"

unfoldable pub spaces : ℕ → Bytes
spaces zero = []
spaces (suc n) = 32 ∷ spaces n

-- A line in a colour, with `pad` spaces before it.
unfoldable pub colored : ℕ → Bytes → Bytes → Bytes
unfolding spaces
colored pad color msg = spaces pad ++ (color ++ (msg ++ (color_end ++ 13 ∷ 10 ∷ [])))

-- A negative pad is taken as 0, which is where the subtraction on ℕ stops.
unfoldable pub centered : ℕ → Bytes → Bytes → Bytes
unfolding colored
centered width color msg = colored ((width - length msg) / 2) color msg

unfoldable pub on_the_right : ℕ → Bytes → Bytes → Bytes
unfolding colored
on_the_right width color msg = colored (width - length msg) color msg

unfoldable pub refresh_line : Console → Console
unfolding print
refresh_line c =
    print
      (clear_line
        ++ (color_end
            ++ (codes "[Ch " ++ (to_string c.channel_id ++ (codes "] > " ++ c.input_buffer)))))
      c

-- gotoxy, which nothing calls
unfoldable pub gotoxy : ℤ → ℤ → Console → Console
unfolding print
gotoxy x y c =
    print (27 ∷ codes "[" ++ (to_string y ++ (codes ";" ++ (to_string x ++ codes "H")))) c

unfoldable pub cls : Console → Console
unfolding print
cls c = print (27 ∷ codes "[2J" ++ 27 ∷ codes "[1;1H") c

module _ (host : Host) where
  -- connect_tcp, without what it prints: `none` is -1.
  unfoldable pub connect_tcp : Bytes → Bytes → host.Kernel → Option Fd × host.Kernel
  connect_tcp name port k =
      let (res, k1) = host.resolve name port k in
      elim res [
        | none ↦ (none, k1)
        | some address ↦
            let (fd, k2) = host.socket address k1 in
            let (connected, k3) = host.connect fd address k2 in
            if fd == fd_err
            then (none, k2)
            else if connected
            then (some fd, k3)
            else (none, host.close fd k3)
      ]
