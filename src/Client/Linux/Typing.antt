-- ===== src/Client/Linux/Typing.antt =====
-- The text that is being typed, over a run of the client for Linux (src/client/client.cpp).
use cpp_chat_channel.Base.{
  ℕ, zero, suc, ◌≡◌, refl, sym, ◌∙◌, subst, Option, none, some, List, [], ◌∷◌, Bool, true, false,
  arith, if◌then◌else◌, Bytes,
}
use cpp_chat_channel.Effects.{ok}
use cpp_chat_channel.Os.{Fd}
use cpp_chat_channel.Client.{Host, Console, print, refresh_line}
use cpp_chat_channel.Client.Frames.{recv_frames}
use cpp_chat_channel.Client.Typing.{
  IsPrintable, Typed, if_either, bind_outcome_keeps, on_key-Typed, take_read_keeps,
}
use cpp_chat_channel.Client.Linux.{
  ClientJson, note_channel, note_own, show_system, show_user, show_error, show_line, linux_requests,
}
use cpp_chat_channel.Client.Linux.Loop.{
  Session, print_line, print_objects, print_value, display_message, display, take_key, read_key,
  read_socket, read_keyboard, take_ready, round, rounds,
}

module _ (host : Host) (json : ClientJson) where
  show_line-input :
      (type : Bytes) (obj : json.Json) (width : ℕ) (c : Console)
      → (show_line json type obj width c).input_buffer ≡ c.input_buffer
  unfolding show_line show_system show_user show_error note_own note_channel print
  show_line-input type obj width c = ground arith

  print_line-input :
      (obj : json.Json) (s : Session host json)
      → (print_line host json obj s).0.input_buffer ≡ s.0.input_buffer
  unfolding print_line
  print_line-input obj s = grind (arith, show_line-input)

  print_objects-input :
      (objs : List json.Json) (s : Session host json)
      → (print_objects host json objs s).0.input_buffer ≡ s.0.input_buffer
  unfolding print_objects
  print_objects-input [] s = refl
  print_objects-input (obj ∷ objs) s =
      print_objects-input objs _ ∙ ground (arith, print_line-input obj s)

  print_value-input :
      (obj : json.Json) (s : Session host json)
      → (print_value host json obj s).0.input_buffer ≡ s.0.input_buffer
  unfolding print_value
  print_value-input obj s = grind (arith, print_line-input, print_objects-input)

  display_message-input :
      (payload : Bytes) (s : Session host json)
      → (display_message host json payload s).0.input_buffer ≡ s.0.input_buffer
  unfolding display_message refresh_line print
  display_message-input payload s = grind (arith, print_value-input)

  display-Typed :
      (payload : Bytes) (s : Session host json) → Typed s → Typed (display host json payload s).1
  display-Typed payload s h = subst IsPrintable (sym (display_message-input payload s)) h

  read_socket-Typed :
      (b : Bool) (fd : Fd) (acc : Bytes) (s : Session host json)
      → Typed s
      → Typed (read_socket host json b fd (acc, s)).1.1
  unfolding read_socket recv_frames
  read_socket-Typed false fd acc s h = h
  read_socket-Typed true fd acc (c, k) h =
      take_read_keeps Typed (display host json) display-Typed (host.recv fd 4096 k).0 acc
        (c, (host.recv fd 4096 k).1) h

  take_key-Typed :
      (fd : Fd) (key : Option ℕ) (s : Session host json)
      → Typed s
      → Typed (take_key host json fd key s).1
  unfolding take_key
  take_key-Typed fd none s h = h
  take_key-Typed fd (some key) s h = on_key-Typed host (linux_requests json) fd key s h

  read_keyboard-Typed :
      (b : Bool) (fd : Fd) (running : Bool) (s : Bytes × Session host json)
      → Typed s.1
      → Typed (read_keyboard host json b fd running s).1.1
  unfolding read_keyboard read_key
  read_keyboard-Typed false fd running s h = h
  read_keyboard-Typed true fd running (acc, (c, k)) h =
      let r = take_key host json fd (host.key k).0 (c, (host.key k).1) in
      bind_outcome_keeps {S = Bytes × Session host json} (λ t. Typed t.1) (r.0, (acc, r.1))
        (λ _ t. (ok running, t)) (take_key-Typed fd (host.key k).0 (c, (host.key k).1) h)
        (λ _ t p. p)

  take_ready-Typed :
      (fd : Fd) (ready : Option (Bool × Bool)) (s : Bytes × Session host json)
      → Typed s.1
      → Typed (take_ready host json fd ready s).1.1
  unfolding take_ready
  take_ready-Typed fd none s h = h
  take_ready-Typed fd (some ready) (acc, s) h =
      bind_outcome_keeps {S = Bytes × Session host json} (λ t. Typed t.1)
        (read_socket host json ready.0 fd (acc, s)) (read_keyboard host json ready.1 fd)
        (read_socket-Typed ready.0 fd acc s h)
        (λ running t. read_keyboard-Typed ready.1 fd running t)

  -- Over any number of rounds of the loop, whatever comes from the server and from the keyboard, the
  -- text that is being typed stays printable.
  pub rounds-Typed :
      (fuel : ℕ) (fd : Fd) (s : Bytes × Session host json)
      → Typed s.1
      → Typed (rounds host json fuel fd s).1.1
  unfolding rounds round
  rounds-Typed zero fd s h = h
  rounds-Typed (suc fuel) fd (acc, (c, k)) h =
      bind_outcome_keeps {S = Bytes × Session host json} (λ t. Typed t.1)
        (take_ready host json fd (host.poll fd k).0 (acc, (c, (host.poll fd k).1)))
        (λ running t. if running then rounds host json fuel fd t else (ok tt, t))
        (take_ready-Typed fd (host.poll fd k).0 (acc, (c, (host.poll fd k).1)) h)
        (λ running t p.
          if_either {S = Bytes × Session host json} (λ t. Typed t.1) running
            (rounds host json fuel fd t) (ok tt, t) (rounds-Typed fuel fd t p) p)
