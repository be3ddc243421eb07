-- ===== src/Client/Linux/Loop.antt =====
-- The run of the client for Linux: what it displays, the handshake, and the loop over the socket and
-- the keyboard (src/client/client.cpp).
use cpp_chat_channel.Base.{
  ℕ, zero, suc, Option, none, some, List, [], ◌∷◌, Bool, true, false, nat_eq, if◌then◌else◌, Bytes,
  codes,
}
use cpp_chat_channel.Effects.{ok, throw, hangs, M, bind_outcome}
use cpp_chat_channel.Os.{Fd}
use cpp_chat_channel.Client.{
  Host, Read, bytes, interrupted, failed, Console, print, clear_line, refresh_line,
}
use cpp_chat_channel.Client.Frames.{take_more, recv_frames}
use cpp_chat_channel.Client.Editor.{on_key}
use cpp_chat_channel.Client.Linux.{ClientJson, show_line, greet_payload, linux_requests}

module _ (host : Host) (json : ClientJson) where
  abbrev pub Session : Type 0
  Session = Console × host.Kernel

  -- print_line
  unfoldable pub print_line : json.Json → Session → Session
  unfolding show_line
  print_line obj (c, k) = elim (json.string_in obj (codes "type")) [
    | none ↦ (c, k)
    | some type ↦ let (width, k') = host.width k in (show_line json type obj width c, k')
  ]

  unfoldable pub print_objects : List json.Json → Session → Session
  unfolding print_line
  print_objects [] s = s
  print_objects (obj ∷ objs) s =
      print_objects objs (if json.is_object obj then print_line obj s else s)

  unfoldable pub print_value : json.Json → Session → Session
  unfolding print_objects
  print_value obj s = elim (json.elements obj) [
    | none ↦ (if json.is_object obj then print_line obj s else s)
    | some objs ↦ print_objects objs s
  ]

  -- display_message
  unfoldable pub display_message : Bytes → Session → Session
  unfolding print_value print refresh_line
  display_message payload (c, k) = elim (json.loadb payload) [
    | none ↦ (c, k)
    | some obj ↦ let (c', k') = print_value obj (print clear_line c, k) in (refresh_line c', k')
  ]

  -- The body of the loop of recv_frames, which goes on with the next frame.
  abbrev pub display : Bytes → M Session Bool
  display payload s = (ok true, display_message payload s)

  abbrev pub Handshake : Type 0
  Handshake = Bytes × ((Bool × Console) × host.Kernel)

  -- What follows recv in the handshake, where `next` is the next round.
  unfoldable pub take_greeting : M Handshake Bool → Fd → Read → M Handshake Bool
  unfolding take_more greet_payload
  take_greeting next fd interrupted (acc, (c, k)) = (ok false, (acc, (c, host.close fd k)))
  take_greeting next fd failed (acc, (c, k)) = (ok false, (acc, (c, host.close fd k)))
  take_greeting next fd (bytes []) (acc, (c, k)) = (ok false, (acc, (c, host.close fd k)))
  take_greeting next fd (bytes (b ∷ bs)) (acc, (c, k)) =
      let (more, (acc', c')) = take_more (greet_payload json) (b ∷ bs) (acc, c) in
      elim more [
        | ok true ↦ next (acc', (c', k))
        | ok false ↦ (ok false, (acc', (c', k)))
        | throw e ↦ (throw e, (acc', (c', k)))
        | hangs ↦ (hangs, (acc', (c', k)))
      ]

  -- The loop `while (!joined)`; `fuel` bounds the reads.
  unfoldable pub handshake : ℕ → Fd → M Handshake Bool
  unfolding take_greeting
  handshake zero fd s = (hangs, s)
  handshake (suc fuel) fd (acc, ((true, c), k)) = (ok true, (acc, ((true, c), k)))
  handshake (suc fuel) fd (acc, ((false, c), k)) =
      let (r, k1) = host.recv fd 4096 k in
      take_greeting (λ s. handshake fuel fd s) fd r (acc, ((false, c), k1))

  -- What follows read.
  unfoldable pub take_key : Fd → Option ℕ → M Session (Unit {0})
  unfolding on_key
  take_key fd none s = (ok tt, s)
  take_key fd (some key) s = on_key host (linux_requests json) fd key s

  unfoldable pub read_key : Fd → M Session (Unit {0})
  unfolding take_key
  read_key fd (c, k) = let (r, k') = host.key k in take_key fd r (c, k')

  unfoldable pub read_socket : Bool → Fd → M (Bytes × Session) Bool
  unfolding recv_frames
  read_socket false fd s = (ok true, s)
  read_socket true fd s = recv_frames host display fd s

  -- The keyboard's part of a round.
  unfoldable pub read_keyboard : Bool → Fd → Bool → M (Bytes × Session) Bool
  unfolding read_key
  read_keyboard false fd running s = (ok running, s)
  read_keyboard true fd running (acc, s) =
      let (r, s') = read_key fd s in bind_outcome (r, (acc, s')) (λ _ t. (ok running, t))

  -- What follows poll.
  unfoldable pub take_ready : Fd → Option (Bool × Bool) → M (Bytes × Session) Bool
  unfolding read_socket read_keyboard
  take_ready fd none s = (ok false, s)
  take_ready fd (some ready) s = bind_outcome (read_socket ready.0 fd s) (read_keyboard ready.1 fd)

  -- One round of `while (running)`: the new value of `running`.
  unfoldable pub round : Fd → M (Bytes × Session) Bool
  unfolding take_ready
  round fd (acc, (c, k)) = let (ready, k') = host.poll fd k in take_ready fd ready (acc, (c, k'))

  -- `fuel` bounds the rounds.
  unfoldable pub rounds : ℕ → Fd → M (Bytes × Session) (Unit {0})
  unfolding round
  rounds zero fd s = (hangs, s)
  rounds (suc fuel) fd s =
      bind_outcome (round fd s) (λ running t. if running then rounds fuel fd t else (ok tt, t))
