-- ===== src/Tests/Clients.antt =====
-- The clients at concrete inputs: a host that plays a script of reads and keys.
use mathlib.Core.List.{flatten}
use cpp_chat_channel.Base.{
  ℕ, ◌≡◌, refl, pos, Option, none, some, List, [], ◌∷◌, ◌++◌, Bool, true, false, Bytes, codes,
  length, arith,
}
use cpp_chat_channel.Effects.{ok, throw, hangs, frame_too_large}
use cpp_chat_channel.Comm.Header.{header}
use cpp_chat_channel.Comm.Stream.{parse_frames}
use cpp_chat_channel.Comm.Stream.RoundTrip.{encode, encode_all}
use cpp_chat_channel.Client.{Host, Read, bytes, failed, Console}
use cpp_chat_channel.Client.Frames.{take_loop}
use cpp_chat_channel.Client.Reader.{shows, show_all, read_all, take_loop_stuck}
use cpp_chat_channel.Client.Typing.{Typed}
use cpp_chat_channel.Client.Linux.{ClientJson}
use cpp_chat_channel.Client.Linux.Loop as Linux
use cpp_chat_channel.Client.Linux.Shown.{display-encode_all}
use cpp_chat_channel.Client.Linux.Typing.{rounds-Typed}
use cpp_chat_channel.Client.Windows.{extract_json_string, message_request, parts}
use cpp_chat_channel.Client.Windows.Loop as Windows
use cpp_chat_channel.Client.Escape.{rounds-message_request}
use cpp_chat_channel.Client.Display.{parts-array_text}

record Script : Type 0 where
  reads : List Read
  keys : List ℕ
  sent : List Bytes

abbrev next_read : Script → Read × Script
next_read k = elim k.reads [ [] ↦ (failed, k) | r ∷ rs ↦ (r, record k { reads = rs }) ]

abbrev next_key : Script → Option ℕ × Script
next_key k = elim k.keys [ [] ↦ (none, k) | c ∷ cs ↦ (some c, record k { keys = cs }) ]

abbrev any : {A : Type 0} → List A → Bool
any [] = false
any (x ∷ xs) = true

abbrev scripted : Host
scripted = record {
  Kernel = Script;
  Address = Unit {0};
  resolve = λ name port k. (some tt, k);
  socket = λ address k. (pos 3, k);
  connect = λ fd address k. (true, k);
  close = λ fd k. k;
  recv = λ fd n k. next_read k;
  send = λ fd b k. (some (length b), record k { sent = b ∷ k.sent });
  now_ms = λ k. (5, k);
  width = λ k. (80, k);
  poll = λ fd k. (some (any k.reads, any k.keys), k);
  key = next_key;
  select = λ fd k. (some (any k.reads), k);
  kbhit = λ k. (any k.keys, k);
  getch = λ k. elim k.keys [ [] ↦ (0, k) | c ∷ cs ↦ (c, record k { keys = cs }) ];
}

-- Every text is an error message.
abbrev plain_json : ClientJson
plain_json = record {
  Json = Bytes;
  loadb = λ payload. elim payload [ [] ↦ none | c ∷ cs ↦ some (c ∷ cs) ];
  elements = λ obj. none;
  is_object = λ obj. true;
  string_in = λ obj key. some obj;
  integer_in = λ obj key. none;
  packed = λ fields. some (codes "{}");
}

abbrev fresh : Console
fresh = record { input_buffer = []; user_name = codes "ann"; channel_id = pos 0; screen = [] }

abbrev script : Script
script = record {
  reads = bytes (codes "0002hi") ∷ [];
  keys = codes "a\"b" ++ 127 ∷ 9 ∷ codes "c";
  sent = [];
}

rounds-Typed_example : Typed (Linux.rounds scripted plain_json 5 (pos 3) ([], (fresh, script))).1.1
rounds-Typed_example = rounds-Typed scripted plain_json 5 (pos 3) ([], (fresh, script)) tt

rounds-message_request_example :
    (extract_json_string
        (message_request
          (Windows.rounds scripted 5 (pos 3) ([], (fresh, script))).1.1.0.input_buffer
          7)
        (codes "text")
      ≡ (Windows.rounds scripted 5 (pos 3) ([], (fresh, script))).1.1.0.input_buffer)
rounds-message_request_example =
    rounds-message_request scripted 5 (pos 3) ([], (fresh, script)) 7 tt

abbrev keeps : Bytes → List Bytes → List Bytes
keeps payload shown = shown ++ payload ∷ []

abbrev two : List Bytes
two = codes "hi" ∷ codes "ho" ∷ []

display-encode_all_example :
    read_all
      (Linux.display scripted plain_json)
      (codes "0002h" ∷ codes "i0002ho" ∷ [])
      ([], (fresh, script))
    ≡ (ok true, ([], show_all (Linux.display_message scripted plain_json) two (fresh, script)))
unfolding flatten encode_all encode header
display-encode_all_example =
    display-encode_all scripted plain_json (codes "0002h" ∷ codes "i0002ho" ∷ []) two
      (fresh, script) refl (omega arith) refl

take_loop_stuck_example :
    ((n : ℕ) (s : List Bytes) → (take_loop (shows keeps) n (codes "-004ab", s)).0 ≡ hangs)
    × (parse_frames (codes "-004ab") ≡ (throw frame_too_large, codes "-004ab"))
take_loop_stuck_example = take_loop_stuck keeps (codes "ab")

parts-array_text_example :
    parts (codes "[{\"a\":1}, {\"b\":2}]") ≡ codes "{\"a\":1}" ∷ codes "{\"b\":2}" ∷ []
parts-array_text_example =
    parts-array_text (codes ", ") (codes "\"a\":1" ∷ codes "\"b\":2" ∷ []) (ground arith)
      (ground arith)
