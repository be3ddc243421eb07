-- ===== src/Client/Escape.antt =====
-- The requests of the client for Windows, read by its own reader of JSON (src/client/client_win.cpp).
use cpp_chat_channel.Base.{
  ℕ, ◌≡◌, refl, ap, ◌∙◌, [], ◌∷◌, ◌++◌, map, true, false, arith, ◌==◌, nat_eq, if◌then◌else◌, Bytes,
  codes, append_assoc,
}
use cpp_chat_channel.Os.{Fd}
use cpp_chat_channel.Client.{Host}
use cpp_chat_channel.Text.{find}
use cpp_chat_channel.Client.Editor.{is_printable}
use cpp_chat_channel.Client.Typing.{IsPrintable}
use cpp_chat_channel.Client.Windows.{
  Session, unquote, value_at, skip_blanks, string_value, extract_json_string, escape_char,
  json_escape, message_request, first_request,
}
use cpp_chat_channel.Client.Windows.Loop.{rounds}
use cpp_chat_channel.Client.Windows.Typing.{rounds-Typed}

-- What is left of a character: the reader drops the backslash of an escape and keeps its letter.
unfoldable pub letter : ℕ → ℕ
letter c =
    if c == 8
    then 98
    else if c == 12
    then 102
    else if c == 10
    then 110
    else if c == 13
    then 114
    else if c == 9
    then 116
    else c

unquote-escape_char :
    (c : ℕ) (s : Bytes) → unquote false (escape_char c ++ s) ≡ letter c ∷ unquote false s
unfolding unquote escape_char letter
unquote-escape_char c s = ground arith

unquote-json_escape : (t rest : Bytes) → unquote false (json_escape t ++ 34 ∷ rest) ≡ map letter t
unfolding json_escape unquote
unquote-json_escape [] rest = refl
unquote-json_escape (c ∷ t) rest =
    ap (unquote false) (append_assoc (escape_char c) (json_escape t) (34 ∷ rest))
    ∙ unquote-escape_char c (json_escape t ++ 34 ∷ rest)
    ∙ ap (◌∷◌ (letter c)) (unquote-json_escape t rest)

letter_printable : (c : ℕ) → is_printable c ≡ true → letter c ≡ c
unfolding is_printable letter
letter_printable c h = ground arith

pub map-letter : (t : Bytes) → IsPrintable t → map letter t ≡ t
map-letter [] h = refl
map-letter (c ∷ t) h = rw (letter_printable c h.0, map-letter t h.1)

-- The reader of the client finds the command and the text in a message request that the client
-- writes, and the name in its first request, whatever they contain: every character is back but the
-- five control characters that are escaped by a letter, which come back as the letter.
pub extract-requests :
    (said : Bytes) (now : ℕ)
    → (extract_json_string (message_request said now) (codes "type") ≡ codes "message")
      × (extract_json_string (message_request said now) (codes "text") ≡ map letter said)
      × (extract_json_string (first_request said now) (codes "user_name") ≡ map letter said)
unfolding extract_json_string value_at find string_value skip_blanks message_request first_request
    unquote
extract-requests said now = (refl, unquote-json_escape said _, unquote-json_escape said _)

-- After any number of rounds of the client for Windows that begin with a printable text, the message
-- request for the text that is then being typed gives the client's reader exactly that text.
pub rounds-message_request :
    (host : Host) (fuel : ℕ) (fd : Fd) (s : Bytes × Session host) (now : ℕ)
    → IsPrintable s.1.0.input_buffer
    → let text = (rounds host fuel fd s).1.1.0.input_buffer in
      extract_json_string (message_request text now) (codes "text") ≡ text
rounds-message_request host fuel fd s now h =
    (extract-requests (rounds host fuel fd s).1.1.0.input_buffer now).1
    ∙ map-letter (rounds host fuel fd s).1.1.0.input_buffer (rounds-Typed host fuel fd s h)
