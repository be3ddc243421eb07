-- ===== src/Client/Windows/Restored.antt =====
-- What is left of the console's modes when the client for Windows exits
-- (src/client/client_win.cpp).
use cpp_chat_channel.Base.{
  Bool-cases, inl, inr, ==_iff, ℕ, zero, suc, ◌≡◌, refl, sym, ap, ◌∙◌, Option, none, some, Bool,
  true, false, ◌==◌, nat_eq, int_eq, if◌then◌else◌, List, [], Bytes, arith,
}
use cpp_chat_channel.Effects.{ok, throw, hangs, Outcome, bind_outcome}
use cpp_chat_channel.Os.{Fd}
use cpp_chat_channel.Client.{Host, Console, refresh_line, cls}
use cpp_chat_channel.Client.Arguments.{cut_path, default_endpoint, take_arguments, entered_name}
use cpp_chat_channel.Client.Editor.{send_request}
use cpp_chat_channel.Client.Untouched.{Untouched, send_request-Untouched}
use cpp_chat_channel.Client.Windows.{Session, windows_requests, first_request}
use cpp_chat_channel.Client.Windows.Loop.{rounds}
use cpp_chat_channel.Client.Windows.Terminal.{
  Handle, Mode, Win, Saved, set_back, cleanup, read_mode, set_raw, with_handles, enable_raw_mode,
  run_handlers, connect_address, connect_tcp,
}
use cpp_chat_channel.Client.Windows.Main.{Process, chat, converse, start, main, exit}
use cpp_chat_channel.Client.Windows.Laws.{WinLaws}

-- The process before enableRawMode.
abbrev pub unsaved : Mode → Mode → Saved
unsaved orig_in orig_out = record {
  console_in = none;
  console_out = none;
  orig_in = orig_in;
  orig_out = orig_out;
  handlers = 0;
}

if_self : (a : Handle) (x y : Mode) → (if a == a then x else y) ≡ x
if_self a x y = ground (arith, ==_iff a a)

if_same :
    (a b : Handle) (f : Handle → Mode) (y : Mode) → y ≡ f b → (if a == b then f a else y) ≡ f b
if_same a b f y e = elim (Bool-cases (a == b)) [
  | inl t ↦ (rw t (ap f ((==_iff a b).0 t)))
  | inr t ↦ (rw t e)
]

module _ {K : Type 0} (win : Win K) (laws : WinLaws win) where
  -- The modes of both handles.
  abbrev pub modes : K → Mode × Mode
  modes k = (laws.mode laws.input k, laws.mode laws.output k)

  kept_cleanup : (k : K) → modes (win.wsa_cleanup k) ≡ modes k
  kept_cleanup k = cc (laws.cleanup_mode laws.input k, laws.cleanup_mode laws.output k)

  kept_startup : (k : K) → modes (win.wsa_startup k).1 ≡ modes k
  kept_startup k = cc (laws.startup_mode laws.input k, laws.startup_mode laws.output k)

  -- What enableRawMode saves.
  abbrev taken : ℕ → Mode × Mode → Saved
  taken n m = record {
    console_in = some laws.input;
    console_out = some laws.output;
    orig_in = m.0;
    orig_out = m.1;
    handlers = suc n;
  }

  cleanup-modes : (n : ℕ) (k k' : K) → modes (cleanup win (taken n (modes k)) k') ≡ modes k
  unfolding cleanup set_back
  cleanup-modes n k k' =
      let (i, o) : Handle × Handle = (laws.input, laws.output) in
      let k1 = win.set_mode i (laws.mode i k) k' in
      let k2 = win.set_mode o (laws.mode o k) k1 in
      let first =
        laws.set_sets i i (laws.mode i k) k' ∙ if_self i (laws.mode i k) (laws.mode i k') in
      let input =
        laws.cleanup_mode i k2
        ∙ laws.set_sets o i (laws.mode o k) k1
        ∙ if_same o i (λ h. laws.mode h k) (laws.mode i k1) first in
      let output =
        laws.cleanup_mode o k2
        ∙ laws.set_sets o o (laws.mode o k) k1
        ∙ if_self o (laws.mode o k) (laws.mode o k1) in
      cc (input, output)

  run_handlers-modes :
      (n m : ℕ) (k k' : K) → modes (run_handlers win (suc n) (taken m (modes k)) k') ≡ modes k
  unfolding run_handlers
  run_handlers-modes zero m k k' = cleanup-modes m k k'
  run_handlers-modes (suc n) m k k' = run_handlers-modes n m k (cleanup win (taken m (modes k)) k')

  enable_raw_mode-saves :
      (s : Saved) (k : K) → (enable_raw_mode win (s, k)).0 ≡ taken s.handlers (modes k)
  unfolding enable_raw_mode with_handles set_raw read_mode
  enable_raw_mode-saves s k =
      rw (laws.input_gives, laws.output_gives, laws.get_input, laws.get_output) refl

module _ (host : Host) (win : Win host.Kernel) (laws : WinLaws win)
    (network : Untouched host (modes win laws)) where
  -- What the handlers leave.
  abbrev left : Process host win → Mode × Mode
  left t = modes win laws (exit host win t)

  -- connect_tcp leaves the modes as they are.
  connect_address-modes :
      (res : Option host.Address) (k : host.Kernel)
      → modes win laws (connect_address host win res k).1 ≡ modes win laws k
  unfolding connect_address
  connect_address-modes none k = kept_cleanup win laws k
  connect_address-modes (some a) k =
      let (fd, k1) = host.socket a k in
      let k2 = (host.connect fd a k1).1 in
      grind (
        arith,
        network.socket_keeps a k,
        network.connect_keeps fd a k1,
        network.close_keeps fd k2,
        kept_cleanup win laws k1,
        kept_cleanup win laws (host.close fd k2),
      )

  connect_tcp-modes :
      (name port : Bytes) (k : host.Kernel)
      → modes win laws (connect_tcp host win name port k).1 ≡ modes win laws k
  unfolding connect_tcp
  connect_tcp-modes name port k =
      let k0 = (win.wsa_startup k).1 in
      let (res, k1) = host.resolve name port k0 in
      if_both (win.wsa_startup k).0 (connect_address host win res k1) (none, k0)
        (connect_address-modes res k1
          ∙ network.resolve_keeps name port k0
          ∙ kept_startup win laws k)
        (kept_startup win laws k)
    where
      if_both :
          (b : Bool) (x y : Option Fd × host.Kernel)
          → modes win laws x.1 ≡ modes win laws k
          → modes win laws y.1 ≡ modes win laws k
          → modes win laws (if b then x else y).1 ≡ modes win laws k
      if_both true x y p q = p
      if_both false x y p q = q

  ended :
      (fd : Fd) (saved : Saved) (x : Outcome (Unit {0})) (c : Console) (k k' : host.Kernel) (n : ℕ)
      → saved ≡ taken win laws n (modes win laws k)
      → (let after : Outcome (Unit {0}) × Process host win =
            bind_outcome
              (x, (saved, (c, k')))
              (λ _ t. (ok tt, (t.0, (t.1.0, host.close fd t.1.1)))) in
          left after.1 ≡ modes win laws k)
  unfolding exit
  ended fd saved (ok _) c k k' n e = rw e (run_handlers-modes win laws n n k (host.close fd k'))
  ended fd saved (throw x) c k k' n e = rw e (run_handlers-modes win laws n n k k')
  ended fd saved hangs c k k' n e = rw e (run_handlers-modes win laws n n k k')

  chat-left :
      (fuel : ℕ) (fd : Fd) (saved : Saved) (c : Console) (k : host.Kernel)
      → left (chat host win fuel fd (saved, (c, k))).1 ≡ modes win laws k
  unfolding chat
  chat-left fuel fd saved c k =
      let (saved', k1) = enable_raw_mode win (saved, k) in
      let shown : Session host = (refresh_line (cls c), win.nonblocking fd k1) in
      let (end, (_, (c', k2))) = rounds host fuel fd ([], shown) in
      ended fd saved' end c' k k2 saved.handlers (enable_raw_mode-saves win laws saved k)

  finished :
      (x : Outcome (Unit {0}) × Process host win) (m : Mode × Mode)
      → left x.1 ≡ m
      → (let after : Outcome ℕ × Process host win = bind_outcome x (λ _ u. (ok 0, u)) in
          left after.1 ≡ m)
  finished (ok _, t) m e = e
  finished (throw x, t) m e = e
  finished (hangs, t) m e = e

  requested :
      (fuel : ℕ) (fd : Fd) (r : Outcome (Unit {0})) (a b : Mode) (c : Console) (k k' : host.Kernel)
      → modes win laws k' ≡ modes win laws k
      → (let after : Outcome ℕ × Process host win =
            bind_outcome
              (r, (unsaved a b, (c, k')))
              (λ _ t. bind_outcome (chat host win fuel fd t) (λ _ u. (ok 0, u))) in
          left after.1 ≡ modes win laws k)
  unfolding exit run_handlers
  requested fuel fd (ok _) a b c k k' e =
      finished (chat host win fuel fd (unsaved a b, (c, k'))) (modes win laws k)
        (chat-left fuel fd (unsaved a b) c k' ∙ e)
  requested fuel fd (throw x) a b c k k' e = e
  requested fuel fd hangs a b c k k' e = e

  start-left :
      (fuel : ℕ) (fd : Option Fd) (a b : Mode) (c : Console) (k : host.Kernel)
      → left (start host win fuel fd (unsaved a b, (c, k))).1 ≡ modes win laws k
  unfolding start converse exit run_handlers
  start-left fuel none a b c k = refl
  start-left fuel (some fd) a b c k =
      let text : ℕ → Option Bytes = λ now. some (first_request c.user_name now) in
      let (r, k') = send_request host windows_requests fd hangs text k in
      requested fuel fd r a b c k k'
        (send_request-Untouched host (modes win laws) network windows_requests fd hangs text k)

  main-left :
      (fuel : ℕ) (args : List Bytes) (line : Bytes) (a b : Mode) (c : Console) (k : host.Kernel)
      → left (main host win fuel args line (unsaved a b, (c, k))).1 ≡ modes win laws k
  unfolding main
  main-left fuel args line a b c k =
      let (name, port) = take_arguments cut_path default_endpoint args in
      let (fd, k') = connect_tcp host win name port k in
      start-left fuel fd a b (record c { user_name = entered_name line }) k'
      ∙ connect_tcp-modes name port k

  -- Where the console does what its calls promise, has both handles, and the calls for the socket do
  -- not touch it, the modes that are left after every run of main that returns are those at its
  -- start, for the input and for the output.
  pub console_restored :
      (fuel : ℕ) (args : List Bytes) (line : Bytes) (a b : Mode) (c : Console) (k : host.Kernel)
      (status : ℕ) (t : Process host win)
      → main host win fuel args line (unsaved a b, (c, k)) ≡ (ok status, t)
      → modes win laws (exit host win t) ≡ modes win laws k
  console_restored fuel args line a b c k status t h =
      ap (λ x. left x.1) (sym h) ∙ main-left fuel args line a b c k
