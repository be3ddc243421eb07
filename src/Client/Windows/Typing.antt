-- ===== src/Client/Windows/Typing.antt =====
-- The text that is being typed, over a run of the client for Windows (src/client/client_win.cpp).
use cpp_chat_channel.Base.{
  ℕ, zero, suc, ◌≡◌, sym, subst, Option, none, some, List, [], ◌∷◌, Bool, true, false, ◌||◌, arith,
  ◌==◌, nat_eq, if◌then◌else◌, Bytes,
}
use cpp_chat_channel.Effects.{ok}
use cpp_chat_channel.Os.{Fd}
use cpp_chat_channel.Client.{Host, Console, print, clear_line, refresh_line}
use cpp_chat_channel.Client.Frames.{recv_frames}
use cpp_chat_channel.Client.Typing.{
  IsPrintable, Typed, if_either, bind_outcome_keeps, on_key-Typed, take_read_keeps,
}
use cpp_chat_channel.Client.Editor.{on_key}
use cpp_chat_channel.Client.Windows.{
  Session, Line, note_own, show_line, print_line, parse_and_print, print_parts, parts,
  display_message, display, windows_requests,
}
use cpp_chat_channel.Client.Windows.Loop.{
  read_key, read_socket, take_hit, read_console, take_ready, round, rounds,
}

module _ (host : Host) where
  show_line-input :
      (l : Line) (width : ℕ) (c : Console) → (show_line l width c).input_buffer ≡ c.input_buffer
  unfolding show_line note_own print
  show_line-input l width c = ground arith

  print_line-input :
      (l : Line) (s : Session host) → (print_line host l s).0.input_buffer ≡ s.0.input_buffer
  unfolding print_line
  print_line-input l (c, k) = ground (arith, show_line-input l (host.width k).0 c)

  parse_and_print-input :
      (text : Bytes) (s : Session host)
      → (parse_and_print host text s).1.0.input_buffer ≡ s.0.input_buffer
  unfolding parse_and_print
  parse_and_print-input text s = grind (arith, print_line-input)

  parse_and_print-Typed :
      (text : Bytes) (s : Session host) → Typed s → Typed (parse_and_print host text s).1
  parse_and_print-Typed text s h = subst IsPrintable (sym (parse_and_print-input text s)) h

  print_parts-Typed :
      (texts : List Bytes) (s : Session host) → Typed s → Typed (print_parts host texts s).1
  unfolding print_parts
  print_parts-Typed [] s h = h
  print_parts-Typed (text ∷ texts) s h =
      bind_outcome_keeps Typed (parse_and_print host text s) (λ _. print_parts host texts)
        (parse_and_print-Typed text s h) (λ _ t. print_parts-Typed texts t)

  display-Typed : (payload : Bytes) (s : Session host) → Typed s → Typed (display host payload s).1
  unfolding display_message print refresh_line
  display-Typed payload (c, k) h =
      bind_outcome_keeps Typed (display_message host payload (c, k)) (λ _ t. (ok true, t))
        (bind_outcome_keeps Typed (print_parts host (parts payload) (print clear_line c, k))
          (λ _ s. (ok tt, (refresh_line s.0, s.1)))
          (print_parts-Typed (parts payload) (print clear_line c, k) h) (λ _ t p. p))
        (λ _ t p. p)

  read_socket-Typed :
      (b : Bool) (fd : Fd) (acc : Bytes) (s : Session host)
      → Typed s
      → Typed (read_socket host b fd (acc, s)).1.1
  unfolding read_socket recv_frames
  read_socket-Typed false fd acc s h = h
  read_socket-Typed true fd acc (c, k) h =
      take_read_keeps Typed (display host) display-Typed (host.recv fd 4096 k).0 acc
        (c, (host.recv fd 4096 k).1) h

  read_key-Typed : (fd : Fd) (s : Session host) → Typed s → Typed (read_key host fd s).1
  unfolding read_key
  read_key-Typed fd (c, k) h =
      let (key, k') = host.getch k in
      if_either Typed (key == 0 || key == 224) (ok tt, (c, (host.getch k').1))
        (on_key host windows_requests fd key (c, k')) h
        (on_key-Typed host windows_requests fd key (c, k') h)

  take_hit-Typed :
      (b : Bool) (fd : Fd) (running : Bool) (s : Bytes × Session host)
      → Typed s.1
      → Typed (take_hit host b fd running s).1.1
  unfolding take_hit
  take_hit-Typed false fd running s h = h
  take_hit-Typed true fd running (acc, s) h =
      let r = read_key host fd s in
      bind_outcome_keeps {S = Bytes × Session host} (λ t. Typed t.1) (r.0, (acc, r.1))
        (λ _ t. (ok running, t)) (read_key-Typed fd s h) (λ _ t p. p)

  read_console-Typed :
      (fd : Fd) (running : Bool) (s : Bytes × Session host)
      → Typed s.1
      → Typed (read_console host fd running s).1.1
  unfolding read_console
  read_console-Typed fd running (acc, (c, k)) =
      take_hit-Typed (host.kbhit k).0 fd running (acc, (c, (host.kbhit k).1))

  take_ready-Typed :
      (fd : Fd) (ready : Option Bool) (s : Bytes × Session host)
      → Typed s.1
      → Typed (take_ready host fd ready s).1.1
  unfolding take_ready
  take_ready-Typed fd none s h = h
  take_ready-Typed fd (some ready) (acc, s) h =
      bind_outcome_keeps {S = Bytes × Session host} (λ t. Typed t.1)
        (read_socket host ready fd (acc, s)) (read_console host fd)
        (read_socket-Typed ready fd acc s h) (λ running t. read_console-Typed fd running t)

  -- Over any number of rounds of the loop, whatever comes from the server and from the console, the
  -- text that is being typed stays printable.
  pub rounds-Typed :
      (fuel : ℕ) (fd : Fd) (s : Bytes × Session host)
      → Typed s.1
      → Typed (rounds host fuel fd s).1.1
  unfolding rounds round
  rounds-Typed zero fd s h = h
  rounds-Typed (suc fuel) fd (acc, (c, k)) h =
      bind_outcome_keeps {S = Bytes × Session host} (λ t. Typed t.1)
        (take_ready host fd (host.select fd k).0 (acc, (c, (host.select fd k).1)))
        (λ running t. if running then rounds host fuel fd t else (ok tt, t))
        (take_ready-Typed fd (host.select fd k).0 (acc, (c, (host.select fd k).1)) h)
        (λ running t p.
          if_either {S = Bytes × Session host} (λ t. Typed t.1) running (rounds host fuel fd t)
            (ok tt, t) (rounds-Typed fuel fd t p) p)
