-- ===== src/Client/Linux.antt =====
-- The client for Linux (src/client/client.cpp): messages, handshake and the loop. jansson, which is not
-- in the repository, is a parameter.
pub mod Loop
pub mod Terminal
pub mod Main
pub mod Restored
pub mod Typing
pub mod Shown
use cpp_chat_channel.Base.{
  ℕ, zero, suc, Option, none, some, List, [], ◌∷◌, ◌++◌, Bool, true, false, ◌||◌, ◌&&◌, ◌==◌,
  nat_eq, if◌then◌else◌, ℤ, pos, Bytes, codes, length,
}
use cpp_chat_channel.Effects.{Outcome, ok, throw, hangs, M}
use cpp_chat_channel.Os.{Fd}
use cpp_chat_channel.Client.{
  Host, bytes, interrupted, failed, Console, print, color_red, color_blue, color_yellow, clear_line,
  centered, on_the_right, refresh_line, cls, connect_tcp,
}
use cpp_chat_channel.Text.{same_text, to_int32}
use cpp_chat_channel.Client.Arguments.{default_endpoint, take_arguments, entered_name}
use cpp_chat_channel.Client.Frames.{send_frame, take_frames, recv_frames}
use cpp_chat_channel.Client.Editor.{Requests, on_key}

-- A value that json_pack is given for `s` or for `I`.
pub data Field : Type 0 where
  text : Bytes → Field
  number : ℤ → Field

pub record ClientJson : Type 1 where
  pub Json : Type 0
  -- json_loadb(data, size, 0, &err): `none` is NULL
  pub loadb : Bytes → Option Json
  -- json_is_array with the elements, and json_is_object
  pub elements : Json → Option (List Json)
  pub is_object : Json → Bool
  -- json_string_value(json_object_get(obj, key)), and the integer there, if it is one
  pub string_in : Json → Bytes → Option Bytes
  pub integer_in : Json → Bytes → Option ℤ
  -- json_pack("{…}", key, value, …), then json_dumps(…, JSON_COMPACT): `none` is NULL
  pub packed : List (Bytes × Field) → Option Bytes

unfoldable pub is_join_event : Bytes → Bool
unfolding same_text
is_join_event event = same_text event (codes "join") || same_text event (codes "rejoin")

module _ (json : ClientJson) where
  -- g_channel_id, where the object has an integer for it.
  unfoldable pub note_channel : json.Json → Console → Console
  unfolding to_int32
  note_channel obj c = elim (json.integer_in obj (codes "channel_id")) [
    | none ↦ c
    | some n ↦ record c { channel_id = to_int32 n }
  ]

  -- A join of the user's own changes the channel.
  unfoldable pub note_own : Bytes → Bytes → json.Json → Console → Console
  unfolding note_channel is_join_event same_text
  note_own event user obj c =
      if same_text c.user_name user && is_join_event event then note_channel obj c else c

  unfoldable pub show_system : json.Json → ℕ → Console → Console
  unfolding note_own print centered
  show_system obj width c = elim (json.string_in obj (codes "event")) [
    | none ↦ c
    | some event ↦ elim (json.string_in obj (codes "user_name")) [
      | none ↦ c
      | some user ↦
          print (centered width color_yellow (codes "[System] " ++ (user ++ 32 ∷ event)))
            (note_own event user obj c)
    ]
  ]

  unfoldable pub show_user : json.Json → ℕ → Console → Console
  unfolding print on_the_right same_text
  show_user obj width c = elim (json.string_in obj (codes "user_name")) [
    | none ↦ c
    | some user ↦ elim (json.string_in obj (codes "event")) [
      | none ↦ c
      | some said ↦
          if same_text c.user_name user
          then print (on_the_right width color_blue (said ++ codes " (Me)")) c
          else print (user ++ (codes ": " ++ (said ++ 13 ∷ 10 ∷ []))) c
    ]
  ]

  unfoldable pub show_error : json.Json → ℕ → Console → Console
  unfolding print centered
  show_error obj width c = elim (json.string_in obj (codes "message")) [
    | none ↦ c
    | some said ↦ print (centered width color_red (codes "[Error] " ++ said)) c
  ]

  -- print_line, once it knows the width
  unfoldable pub show_line : Bytes → json.Json → ℕ → Console → Console
  unfolding show_system show_user show_error same_text
  show_line type obj width c =
      if same_text type (codes "system")
      then show_system obj width c
      else if same_text type (codes "user")
      then show_user obj width c
      else if same_text type (codes "error")
      then show_error obj width c
      else c

  -- One object of an answer to the join request: whether the client has joined; `none` is `return 1`.
  unfoldable pub greet : json.Json → Bool × Console → Option (Bool × Console)
  unfolding is_join_event note_channel same_text
  greet obj (joined, c) = elim (json.string_in obj (codes "type")) [
    | none ↦ some (joined, c)
    | some type ↦
        if same_text type (codes "system")
        then (elim (json.string_in obj (codes "event")) [
          | none ↦ some (joined, c)
          | some event ↦
              if is_join_event event then some (true, note_channel obj c) else some (joined, c)
        ])
        else if same_text type (codes "error")
        then none
        else some (joined, c)
  ]

  unfoldable pub greet_all : List json.Json → Bool × Console → Option (Bool × Console)
  unfolding greet
  greet_all [] s = some s
  greet_all (obj ∷ objs) s = elim (greet obj s) [ none ↦ none | some s' ↦ greet_all objs s' ]

  unfoldable pub greet_value : json.Json → Bool × Console → Option (Bool × Console)
  unfolding greet greet_all
  greet_value obj s = elim (json.elements obj) [ none ↦ greet obj s | some objs ↦ greet_all objs s ]

  unfoldable pub greet_payload : Bytes → M (Bool × Console) Bool
  unfolding greet_value
  greet_payload payload s = elim (json.loadb payload) [
    | none ↦ (ok true, s)
    | some obj ↦ elim (greet_value obj s) [ none ↦ (ok false, s) | some s' ↦ (ok true, s') ]
  ]

  unfoldable pub linux_requests : Requests
  linux_requests = record {
    join_text = λ id now. json.packed (
        (codes "type", text (codes "join"))
        ∷ (codes "channel_id", number id)
        ∷ (codes "timestamp", number (pos now))
        ∷ []);
    message_text = λ said now. json.packed (
        (codes "type", text (codes "message"))
        ∷ (codes "text", text said)
        ∷ (codes "timestamp", number (pos now))
        ∷ []);
  }

  -- The join request at the start.
  unfoldable pub first_request : Bytes → ℕ → Option Bytes
  first_request name now = json.packed (
      (codes "type", text (codes "join"))
      ∷ (codes "channel_id", number (pos 1))
      ∷ (codes "user_name", text name)
      ∷ (codes "timestamp", number (pos now))
      ∷ [])
