-- ===== src/Client/Linux/Terminal.antt =====
-- The modes of the terminal (src/client/client.cpp): disableRawMode, enableRawMode and the handlers of
-- atexit.
use cpp_chat_channel.Base.{ℕ, zero, suc, Option, none, some, Bool, false, Bytes}

-- struct termios: what the client changes, and the rest.
pub record Termios : Type 0 where
  -- ECHO and ICANON in c_lflag
  pub echo : Bool
  pub icanon : Bool
  -- c_cc[VMIN] and c_cc[VTIME]
  pub vmin : ℕ
  pub vtime : ℕ
  pub rest : Bytes

-- tcgetattr(STDIN_FILENO, …), `none` if it fails, and tcsetattr(STDIN_FILENO, TCSAFLUSH, …).
pub record Tty (K : Type 0) : Type 0 where
  pub tcgetattr : K → Option Termios × K
  pub tcsetattr : Termios → K → K

-- g_orig_termios, and how often disableRawMode is registered with atexit.
pub record Saved : Type 0 where
  pub orig_termios : Termios
  pub handlers : ℕ

-- The variable `raw`.
unfoldable pub raw_of : Termios → Termios
raw_of t = record t { echo = false; icanon = false; vmin = 1; vtime = 0 }

module _ {K : Type 0} (tty : Tty K) where
  -- disableRawMode
  unfoldable pub disable_raw_mode : Saved → K → K
  disable_raw_mode s k = tty.tcsetattr s.orig_termios k

  -- enableRawMode: tcgetattr leaves the variable as it is if it fails, and all goes on.
  unfoldable pub enable_raw_mode : Saved × K → Saved × K
  unfolding raw_of
  enable_raw_mode (s, k) =
      let (got, k') = tty.tcgetattr k in
      let orig : Termios = elim got [ none ↦ s.orig_termios | some t ↦ t ] in
      (record { orig_termios = orig; handlers = suc s.handlers }, tty.tcsetattr (raw_of orig) k')

  -- exit: the handlers of atexit.
  unfoldable pub run_handlers : ℕ → Saved → K → K
  unfolding disable_raw_mode
  run_handlers zero s k = k
  run_handlers (suc n) s k = run_handlers n s (disable_raw_mode s k)

-- get_term_width, where the argument is ws_col, or `none` where ioctl fails; it is what `width` of a
-- Host stands for.
unfoldable pub get_term_width : Option ℕ → ℕ
get_term_width none = 80
get_term_width (some columns) = columns
