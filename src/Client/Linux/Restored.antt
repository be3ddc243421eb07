-- ===== src/Client/Linux/Restored.antt =====
-- What is left of the terminal's modes when the client for Linux exits (src/client/client.cpp).
use cpp_chat_channel.Base.{
  ℕ, zero, suc, ◌≡◌, refl, subst, sym, ap, ◌∙◌, Option, none, some, Bool, List, [], ◌∷◌, true,
  false, Bytes, arith, nat_eq, int_eq,
}
use cpp_chat_channel.Effects.{ok, throw, hangs, Outcome, M, bind_outcome}
use cpp_chat_channel.Os.{Fd}
use cpp_chat_channel.Client.{
  Host, Read, bytes, interrupted, failed, Console, refresh_line, cls, connect_tcp,
}
use cpp_chat_channel.Client.Linux.{ClientJson, linux_requests, first_request}
use cpp_chat_channel.Client.Linux.Loop.{Handshake, take_greeting, handshake, rounds}
use cpp_chat_channel.Client.Arguments.{default_endpoint, take_arguments, entered_name}
use cpp_chat_channel.Client.Untouched.{Untouched, connect_tcp-Untouched, send_request-Untouched}
use cpp_chat_channel.Client.Editor.{send_request}
use cpp_chat_channel.Client.Linux.Terminal.{
  Termios, Tty, Saved, raw_of, disable_raw_mode, enable_raw_mode, run_handlers,
}
use cpp_chat_channel.Client.Linux.Main.{Process, chat, begin, join, converse, start, main, exit}

-- A terminal: its modes are what tcgetattr gives and tcsetattr sets.
pub record TtyLaws {K : Type 0} (tty : Tty K) : Type 0 where
  pub modes : K → Termios
  pub get_gives : (k : K) → (tty.tcgetattr k).0 ≡ some (modes k)
  pub get_keeps : (k : K) → modes (tty.tcgetattr k).1 ≡ modes k
  pub set_sets : (t : Termios) (k : K) → modes (tty.tcsetattr t k) ≡ t

module _ {K : Type 0} (tty : Tty K) (laws : TtyLaws tty) where
  -- The last handler leaves the saved modes.
  run_handlers-modes :
      (n : ℕ) (s : Saved) (k : K) → laws.modes (run_handlers tty (suc n) s k) ≡ s.orig_termios
  unfolding run_handlers disable_raw_mode
  run_handlers-modes zero s k = laws.set_sets s.orig_termios k
  run_handlers-modes (suc n) s k = run_handlers-modes n s (disable_raw_mode tty s k)

  enable_raw_mode-saves :
      (s : Saved) (k : K)
      → ((enable_raw_mode tty (s, k)).0
          ≡ record { orig_termios = laws.modes k; handlers = suc s.handlers })
        × (laws.modes (enable_raw_mode tty (s, k)).1 ≡ raw_of (laws.modes k))
  unfolding enable_raw_mode
  enable_raw_mode-saves s k = rw (laws.get_gives k) (refl, laws.set_sets (raw_of (laws.modes k)) _)

module _ (host : Host) (json : ClientJson) (tty : Tty host.Kernel) (laws : TtyLaws tty)
    (network : Untouched host laws.modes) where
  take_greeting-modes :
      (next : M (Handshake host json) Bool) (fd : Fd) (r : Read) (t : Handshake host json)
      → ((u : Handshake host json) → laws.modes (next u).1.1.1 ≡ laws.modes u.1.1)
      → laws.modes (take_greeting host json next fd r t).1.1.1 ≡ laws.modes t.1.1
  unfolding take_greeting
  take_greeting-modes next fd interrupted (acc, (c, k)) h = network.close_keeps fd k
  take_greeting-modes next fd failed (acc, (c, k)) h = network.close_keeps fd k
  take_greeting-modes next fd (bytes []) (acc, (c, k)) h = network.close_keeps fd k
  take_greeting-modes next fd (bytes (b ∷ bs)) (acc, (c, k)) h = grind (arith, h)

  handshake-modes :
      (fuel : ℕ) (fd : Fd) (t : Handshake host json)
      → laws.modes (handshake host json fuel fd t).1.1.1 ≡ laws.modes t.1.1
  unfolding handshake
  handshake-modes zero fd t = refl
  handshake-modes (suc fuel) fd (acc, ((true, c), k)) = refl
  handshake-modes (suc fuel) fd (acc, ((false, c), k)) =
      let (r, k1) = host.recv fd 4096 k in
      take_greeting-modes (λ s. handshake host json fuel fd s) fd r (acc, ((false, c), k1))
        (handshake-modes fuel fd)
      ∙ network.recv_keeps fd 4096 k

  -- What the handlers leave.
  abbrev left : Process host json tty → Termios
  left t = laws.modes (exit host json tty t)

  ended :
      (fd : Fd) (orig : Termios) (n : ℕ) (x : Outcome (Unit {0})) (c : Console) (k : host.Kernel)
      → (let after : Outcome (Unit {0}) × Process host json tty =
            bind_outcome
              (x, (record { orig_termios = orig; handlers = suc n }, (c, k)))
              (λ _ t. (ok tt, (t.0, (t.1.0, host.close fd t.1.1)))) in
          left after.1 ≡ orig)
  unfolding exit
  ended fd orig n (ok _) c k = run_handlers-modes tty laws n _ (host.close fd k)
  ended fd orig n (throw e) c k = run_handlers-modes tty laws n _ k
  ended fd orig n hangs c k = run_handlers-modes tty laws n _ k

  chat-left :
      (fuel : ℕ) (fd : Fd) (acc : Bytes) (saved : Saved) (c : Console) (k : host.Kernel)
      → left (chat host json tty fuel fd acc (saved, (c, k))).1 ≡ laws.modes k
  unfolding chat
  chat-left fuel fd acc saved c k =
      let (_, k1) = enable_raw_mode tty (saved, k) in
      let (end, (_, (c', k2))) = rounds host json fuel fd (acc, (refresh_line (cls c), k1)) in
      let after : Saved → Outcome (Unit {0}) × Process host json tty = λ s.
        bind_outcome (end, (s, (c', k2))) (λ _ t. (ok tt, (t.0, (t.1.0, host.close fd t.1.1)))) in
      subst (λ s. left (after s).1 ≡ laws.modes k) (sym (enable_raw_mode-saves tty laws saved k).0)
        (ended fd (laws.modes k) saved.handlers end c' k2)

  -- The process before enableRawMode.
  abbrev cooked : Termios → Saved
  cooked orig = record { orig_termios = orig; handlers = 0 }

  -- A process that has not come so far keeps the modes as they are.
  early :
      {A : Type 0} (x : Outcome A) (f : A → M (Process host json tty) ℕ) (orig : Termios)
      (c : Console) (k k' : host.Kernel)
      → laws.modes k' ≡ laws.modes k
      → ((a : A) → left (f a (cooked orig, (c, k'))).1 ≡ laws.modes k')
      → left (bind_outcome (x, (cooked orig, (c, k'))) f).1 ≡ laws.modes k
  unfolding exit run_handlers
  early (ok a) f orig c k k' e h = h a ∙ e
  early (throw x) f orig c k k' e h = e
  early hangs f orig c k k' e h = e

  begin-left :
      (fuel : ℕ) (fd : Fd) (joined : Outcome Bool) (acc : Bytes) (orig : Termios) (c : Console)
      (k : host.Kernel)
      → left (begin host json tty fuel fd joined acc (cooked orig, (c, k))).1 ≡ laws.modes k
  unfolding begin exit run_handlers
  begin-left fuel fd (ok true) acc orig c k =
      finished (chat host json tty fuel fd acc (cooked orig, (c, k)))
        (chat-left fuel fd acc (cooked orig) c k)
    where
      finished :
          (x : Outcome (Unit {0}) × Process host json tty)
          → left x.1 ≡ laws.modes k
          → (let after : Outcome ℕ × Process host json tty = bind_outcome x (λ _ u. (ok 0, u)) in
              left after.1 ≡ laws.modes k)
      finished (ok _, t) e = e
      finished (throw x, t) e = e
      finished (hangs, t) e = e
  begin-left fuel fd (ok false) acc orig c k = refl
  begin-left fuel fd (throw e) acc orig c k = refl
  begin-left fuel fd hangs acc orig c k = refl

  join-left :
      (fuel : ℕ) (fd : Fd) (orig : Termios) (c : Console) (k : host.Kernel)
      → left (join host json tty fuel fd (cooked orig, (c, k))).1 ≡ laws.modes k
  unfolding join
  join-left fuel fd orig c k =
      let (joined, (acc, ((_, c'), k'))) = handshake host json fuel fd ([], ((false, c), k)) in
      begin-left fuel fd joined acc orig c' k' ∙ handshake-modes fuel fd ([], ((false, c), k))

  converse-left :
      (fuel : ℕ) (fd : Fd) (orig : Termios) (c : Console) (k : host.Kernel)
      → left (converse host json tty fuel fd (cooked orig, (c, k))).1 ≡ laws.modes k
  unfolding converse
  converse-left fuel fd orig c k =
      let text = first_request json c.user_name in
      let (r, k') = send_request host (linux_requests json) fd hangs text k in
      early r (λ _ t. join host json tty fuel fd t) orig c k k'
        (send_request-Untouched host laws.modes network (linux_requests json) fd hangs text k)
        (λ _. join-left fuel fd orig c k')

  start-left :
      (fuel : ℕ) (fd : Option Fd) (orig : Termios) (c : Console) (k : host.Kernel)
      → left (start host json tty fuel fd (cooked orig, (c, k))).1 ≡ laws.modes k
  unfolding start exit run_handlers
  start-left fuel none orig c k = refl
  start-left fuel (some fd) orig c k = converse-left fuel fd orig c k

  main-left :
      (fuel : ℕ) (args : List Bytes) (line : Bytes) (orig : Termios) (c : Console) (k : host.Kernel)
      → left (main host json tty fuel args line (cooked orig, (c, k))).1 ≡ laws.modes k
  unfolding main
  main-left fuel args line orig c k =
      let (name, port) = take_arguments (λ url. url) default_endpoint args in
      let (fd, k') = connect_tcp host name port k in
      start-left fuel fd orig (record c { user_name = entered_name line }) k'
      ∙ connect_tcp-Untouched host laws.modes network name port k

  -- Where the terminal does what its calls promise and the calls for the socket do not touch it, the
  -- modes that are left after every run of main that returns are those at its start.
  pub main_restores :
      (fuel : ℕ) (args : List Bytes) (line : Bytes) (orig : Termios) (c : Console) (k : host.Kernel)
      (status : ℕ) (t : Process host json tty)
      → main host json tty fuel args line (record { orig_termios = orig; handlers = 0 }, (c, k))
        ≡ (ok status, t)
      → laws.modes (exit host json tty t) ≡ laws.modes k
  main_restores fuel args line orig c k status t h =
      ap (λ x. left x.1) (sym h) ∙ main-left fuel args line orig c k
