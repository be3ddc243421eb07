-- ===== src/Client/Windows.antt =====
-- The client for Windows (src/client/client_win.cpp): its own reader and writer of JSON, and what it
-- displays.
pub mod Loop
pub mod Terminal
pub mod Main
pub mod Laws
pub mod Sockets
pub mod Restored
pub mod Typing
use cpp_chat_channel.Base.{
  ℕ, zero, suc, ◌+◌, Option, none, some, List, [], ◌∷◌, ◌++◌, Bool, true, false, ◌&&◌, ◌||◌, leb,
  ◌==◌, nat_eq, if◌then◌else◌, ℤ, pos, negsuc, Bytes, codes, length, take, drop, ltb,
}
use cpp_chat_channel.Base.Decimal.{to_string, nat_to_string}
use cpp_chat_channel.Effects.{Outcome, ok, throw, hangs, M, ◌>>◌, bind_outcome, return}
use cpp_chat_channel.Comm.Header.{skip_spaces}
use cpp_chat_channel.Client.{
  Host, Console, print, color_red, color_blue, color_yellow, clear_line, centered, on_the_right,
  refresh_line,
}
use cpp_chat_channel.Text.{same_text, is_prefix, find, stoi}
use cpp_chat_channel.Client.Editor.{Requests}

-- "\"" + key + "\":"
abbrev pub search : Bytes → Bytes
search key = 34 ∷ (key ++ 34 ∷ 58 ∷ [])

unfoldable pub skip_blanks : Bytes → Bytes
skip_blanks [] = []
skip_blanks (c ∷ s) = let rest = skip_blanks s in if c == 32 || c == 9 then rest else c ∷ s

-- The text behind the first `"key":` and the blanks that follow it; `none` where there is no such key.
unfoldable pub value_at : Bytes → Bytes → Option Bytes
unfolding find skip_blanks
value_at json key = elim (find (search key) json) [
  | none ↦ none
  | some start ↦ some (skip_blanks (drop (start + length (search key)) json))
]

-- The loop over the characters of a string; the first argument is `escaped`.
unfoldable pub unquote : Bool → Bytes → Bytes
unquote escaped [] = []
unquote true (c ∷ s) = c ∷ unquote false s
unquote false (c ∷ s) = elim (c == 92) [
  | true ↦ unquote true s
  | false ↦ elim (c == 34) [ true ↦ [] | false ↦ c ∷ unquote false s ]
]

unfoldable pub string_value : Bytes → Bytes
unfolding unquote
string_value [] = []
string_value (c ∷ s) = if c == 34 then unquote false s else []

unfoldable pub extract_json_string : Bytes → Bytes → Bytes
unfolding value_at string_value
extract_json_string json key = elim (value_at json key) [ none ↦ [] | some s ↦ string_value s ]

-- The digits and minus signs at the front.
unfoldable pub number_run : Bytes → Bytes
number_run [] = []
number_run (c ∷ s) =
    let rest = number_run s in if (leb 48 c && leb c 57) || c == 45 then c ∷ rest else []

unfoldable pub number_value : Bytes → Option ℤ
unfolding stoi
number_value [] = some (pos 0)
number_value (c ∷ s) = stoi (c ∷ s)

-- `none` where std::stoi throws.
unfoldable pub extract_json_int : Bytes → Bytes → Option ℤ
unfolding value_at number_run number_value
extract_json_int json key = elim (value_at json key) [
  | none ↦ some (pos 0)
  | some s ↦ number_value (number_run s)
]

unfoldable pub escape_char : ℕ → Bytes
escape_char c =
    if c == 34
    then 92 ∷ 34 ∷ []
    else if c == 92
    then 92 ∷ 92 ∷ []
    else if c == 8
    then 92 ∷ 98 ∷ []
    else if c == 12
    then 92 ∷ 102 ∷ []
    else if c == 10
    then 92 ∷ 110 ∷ []
    else if c == 13
    then 92 ∷ 114 ∷ []
    else if c == 9
    then 92 ∷ 116 ∷ []
    else c ∷ []

unfoldable pub json_escape : Bytes → Bytes
unfolding escape_char
json_escape [] = []
json_escape (c ∷ s) = escape_char c ++ json_escape s

-- The texts of the requests.
unfoldable pub join_request : ℤ → ℕ → Bytes
unfolding to_string
join_request id now =
    codes "{\"type\":\"join\", \"channel_id\":"
    ++ (to_string id ++ (codes ", \"timestamp\":" ++ (nat_to_string now ++ codes "}")))

unfoldable pub message_request : Bytes → ℕ → Bytes
unfolding json_escape nat_to_string
message_request said now =
    codes "{\"type\":\"message\", \"text\":\""
    ++ (json_escape said ++ (codes "\", \"timestamp\":" ++ (nat_to_string now ++ codes "}")))

unfoldable pub first_request : Bytes → ℕ → Bytes
unfolding json_escape nat_to_string
first_request name now =
    codes "{\"type\":\"join\", \"channel_id\":1, \"user_name\":\""
    ++ (json_escape name ++ (codes "\", \"timestamp\":" ++ (nat_to_string now ++ codes "}")))

unfoldable pub windows_requests : Requests
unfolding join_request message_request
windows_requests = record {
  join_text = λ id now. some (join_request id now);
  message_text = λ said now. some (message_request said now);
}

abbrev is_positive : ℤ → Bool
is_positive (pos n) = ltb 0 n
is_positive (negsuc n) = false

abbrev is_empty : Bytes → Bool
is_empty [] = true
is_empty (c ∷ s) = false

-- What parse_and_print finds in an object.
pub record Line : Type 0 where
  pub type : Bytes
  pub user : Bytes
  pub event : Bytes
  pub message : Bytes
  pub ch_id : ℤ

unfoldable pub note_own : Line → Console → Console
unfolding same_text
note_own l c =
    if same_text c.user_name l.user
      && ((same_text l.event (codes "join") || same_text l.event (codes "rejoin"))
          && is_positive l.ch_id)
    then record c { channel_id = l.ch_id }
    else c

unfoldable pub show_line : Line → ℕ → Console → Console
unfolding note_own print centered on_the_right same_text
show_line l width c =
    if same_text l.type (codes "system")
    then (if is_empty l.event || is_empty l.user
        then c
        else print (centered width color_yellow (codes "[System] " ++ (l.user ++ 32 ∷ l.event)))
            (note_own l c))
    else if same_text l.type (codes "user")
    then (if is_empty l.event || is_empty l.user
        then c
        else if same_text c.user_name l.user
        then print (on_the_right width color_blue (l.event ++ codes " (Me)")) c
        else print (l.user ++ (codes ": " ++ (l.event ++ 13 ∷ 10 ∷ []))) c)
    else if same_text l.type (codes "error")
    then (if is_empty l.message
        then c
        else print (centered width color_red (codes "[Error] " ++ l.message)) c)
    else c

-- The values of an object; `none` where std::stoi throws, which nothing catches.
unfoldable pub parse_line : Bytes → Option Line
unfolding extract_json_string extract_json_int
parse_line json = elim (extract_json_int json (codes "channel_id")) [
  | none ↦ none
  | some id ↦ some (record {
    type = extract_json_string json (codes "type");
    user = extract_json_string json (codes "user_name");
    event = extract_json_string json (codes "event");
    message = extract_json_string json (codes "message");
    ch_id = id;
  })
]

-- The text up to the `}` that stands there, and what follows it.
unfoldable pub close_at : Option ℕ → Bytes → Option (Bytes × Bytes)
close_at none s = none
close_at (some j) s = some (take (suc j) s, drop (suc j) s)

unfoldable pub open_at : Option ℕ → Bytes → Option (Bytes × Bytes)
unfolding close_at find
open_at none s = none
open_at (some i) s = close_at (find (codes "}") (drop i s)) (drop i s)

-- The text from the first `{` to the next `}`, and what follows it.
unfoldable pub first_object : Bytes → Option (Bytes × Bytes)
unfolding open_at find
first_object s = open_at (find (codes "{") s) s

-- The texts from each `{` to the next `}`; a round takes two characters at least.
unfoldable pub objects : ℕ → Bytes → List Bytes
unfolding first_object
objects zero s = []
objects (suc fuel) s = elim (first_object s) [
  | none ↦ []
  | some found ↦ found.0 ∷ objects fuel found.1
]

-- The parts of a payload that are printed, one after the other.
unfoldable pub parts : Bytes → List Bytes
unfolding objects skip_spaces
parts payload = elim (skip_spaces payload) [
  | [] ↦ payload ∷ []
  | c ∷ s ↦ if c == 91 then objects (suc (length s)) s else payload ∷ []
]

module _ (host : Host) where
  abbrev pub Session : Type 0
  Session = Console × host.Kernel

  -- print_line
  unfoldable pub print_line : Line → Session → Session
  unfolding show_line
  print_line l (c, k) = elim l.type [
    | [] ↦ (c, k)
    | _ ∷ _ ↦ let (width, k') = host.width k in (show_line l width c, k')
  ]

  -- A throw of std::stoi ends the process.
  unfoldable pub parse_and_print : Bytes → M Session (Unit {0})
  unfolding parse_line print_line
  parse_and_print json s = elim (parse_line json) [
    | none ↦ (hangs, s)
    | some l ↦ (ok tt, print_line l s)
  ]

  unfoldable pub print_parts : List Bytes → M Session (Unit {0})
  unfolding parse_and_print
  print_parts [] = return tt
  print_parts (json ∷ jsons) = parse_and_print json >> print_parts jsons

  -- display_message
  unfoldable pub display_message : Bytes → M Session (Unit {0})
  unfolding print_parts parts print refresh_line
  display_message payload (c, k) =
      bind_outcome (print_parts (parts payload) (print clear_line c, k))
        (λ _ s. (ok tt, (refresh_line s.0, s.1)))

  -- The body of the loop of recv_frames, which goes on with the next frame.
  abbrev pub display : Bytes → M Session Bool
  display payload s = bind_outcome (display_message payload s) (λ _ t. (ok true, t))
