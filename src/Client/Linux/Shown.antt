-- ===== src/Client/Linux/Shown.antt =====
-- What the servers send, shown by the client for Linux (src/client/client.cpp).
use mathlib.Core.List.{flatten}
use cpp_chat_channel.Base.{◌≡◌, refl, none, true, List, [], All, Bytes}
use cpp_chat_channel.Effects.{ok}
use cpp_chat_channel.Comm.Stream.RoundTrip.{IsPayload, encode_all}
use cpp_chat_channel.Client.{Host}
use cpp_chat_channel.Client.Reader.{show_all, read_all, read_all-encode_all}
use cpp_chat_channel.Client.Linux.{ClientJson}
use cpp_chat_channel.Client.Linux.Loop.{Session, display_message, display}

-- The frames that the servers write for payloads that may be sent, however they are cut into reads,
-- are displayed by the client for Linux in order, whole and once each, and leave no byte; an empty
-- text must be no JSON.
pub display-encode_all :
    (host : Host) (json : ClientJson) (cs ps : List Bytes) (s : Session host json)
    → json.loadb [] ≡ none
    → All IsPayload ps
    → flatten cs ≡ encode_all ps
    → read_all (display host json) cs ([], s)
      ≡ (ok true, ([], show_all (display_message host json) ps s))
unfolding display_message
display-encode_all host json cs ps s empty a e =
    read_all-encode_all (display_message host json) ignores cs ps s a e
  where
    ignores : (t : Session host json) → display_message host json [] t ≡ t
    ignores t = rw (empty, display_message) refl
