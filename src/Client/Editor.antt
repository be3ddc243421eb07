-- ===== src/Client/Editor.antt =====
-- What the clients do with a key (src/client/client.cpp, src/client/client_win.cpp).
use cpp_chat_channel.Base.{
  ℕ, Option, none, some, [], ◌∷◌, ◌++◌, Bool, ◌&&◌, ◌||◌, leb, ◌==◌, nat_eq, if◌then◌else◌, ℤ,
  Bytes, codes, drop,
}
use cpp_chat_channel.Effects.{Outcome, ok, throw, hangs, M, bind_outcome}
use cpp_chat_channel.Os.{Fd}
use cpp_chat_channel.Client.{Host, Console, refresh_line}
use cpp_chat_channel.Text.{is_prefix, stoi}
use cpp_chat_channel.Client.Frames.{send_frame}

-- The texts of the requests, with their time; `none` where building one throws.
pub record Requests : Type 0 where
  pub join_text : ℤ → ℕ → Option Bytes
  pub message_text : Bytes → ℕ → Option Bytes

abbrev pub with_input : Bytes → Console → Console
with_input text c = record c { input_buffer = text }

-- g_input_buffer.pop_back()
unfoldable pub pop_back : Bytes → Bytes
pop_back [] = []
pop_back (c ∷ []) = []
pop_back (c ∷ d ∷ s) = c ∷ pop_back (d ∷ s)

unfoldable pub is_printable : ℕ → Bool
is_printable c = leb 32 c && leb c 126

module _ (host : Host) (requests : Requests) (fd : Fd) where
  abbrev Session : Type 0
  Session = Console × host.Kernel

  -- now_ms(), the text, and send_frame, whose result is not read; `broken` is what a throw leads to.
  unfoldable pub send_request : Outcome (Unit {0}) → (ℕ → Option Bytes) → M host.Kernel (Unit {0})
  unfolding send_frame
  send_request broken text k =
      let (now, k1) = host.now_ms k in
      elim (text now) [
        | none ↦ (broken, k1)
        | some payload ↦
            let (r, k2) = send_frame host fd payload k1 in
            elim r [ ok _ ↦ (ok tt, k2) | throw e ↦ (throw e, k2) | hangs ↦ (hangs, k2) ]
      ]

  -- What is sent for the text: a command that cannot be sent is ignored, a message that cannot be built
  -- ends the process.
  unfoldable pub request : Bytes → M host.Kernel (Unit {0})
  unfolding send_request is_prefix stoi
  request text k =
      if is_prefix (codes "/join ") text
      then (elim (stoi (drop 6 text)) [
        | none ↦ (ok tt, k)
        | some id ↦ send_request (ok tt) (requests.join_text id) k
      ])
      else send_request hangs (requests.message_text text) k

  -- Enter on a text that is not empty.
  unfoldable pub submit : M Session (Unit {0})
  unfolding request
  submit (c, k) =
      bind_outcome (let (r, k') = request c.input_buffer k in (r, (c, k')))
        (λ _ s. (ok tt, (with_input [] s.0, s.1)))

  unfoldable pub enter : Bytes → M Session (Unit {0})
  unfolding submit
  enter [] s = (ok tt, s)
  enter (_ ∷ _) s = submit s

  unfoldable pub on_enter : M Session (Unit {0})
  unfolding enter
  on_enter s = enter s.0.input_buffer s

  unfoldable pub edit : ℕ → Bytes → Bytes
  unfolding pop_back is_printable
  edit key text =
      if key == 127 || key == 8
      then pop_back text
      else if is_printable key
      then text ++ key ∷ []
      else text

  unfoldable pub on_key : ℕ → M Session (Unit {0})
  unfolding on_enter edit refresh_line
  on_key key (c, k) =
      bind_outcome
        (if key == 10 || key == 13
          then on_enter (c, k)
          else (ok tt, (with_input (edit key c.input_buffer) c, k)))
        (λ _ s. (ok tt, (refresh_line s.0, s.1)))
