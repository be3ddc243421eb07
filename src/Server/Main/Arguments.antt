-- ===== src/Server/Main/Arguments.antt =====
-- What the server reads from its command line (src/server/server.cpp).
use cpp_chat_channel.Base.{
  ◌≡◌, refl, Option, none, some, List, [], ◌∷◌, true, false, arith, nat_eq, if◌then◌else◌, inl, inr,
  Option-cases, ◌∙◌, ℤ, Bytes, codes, drop, length,
}
use cpp_chat_channel.Text.{is_prefix, atoi}
use cpp_chat_channel.Server.Main.{Limits, set_limit, take_limit, take_limits}

-- What stands behind the key in the last argument that has it.
unfoldable pub last_of : Bytes → List Bytes → Option Bytes
last_of key [] = none
last_of key (arg ∷ args) =
    let later = last_of key args in
    elim later [
      | none ↦ if is_prefix key arg then some (drop (length key) arg) else none
      | some text ↦ some text
    ]

unfoldable pub value_of : ℤ → Option Bytes → Option ℤ
value_of before none = some before
value_of before (some text) = atoi text

keys_differ :
    (arg : Bytes) → is_prefix (codes "lobbyN=") arg ≡ true → is_prefix (codes "chN=") arg ≡ false
unfolding is_prefix
keys_differ [] h = refl
keys_differ (c ∷ arg) h = ground arith

take_limit_value :
    (arg : Bytes) (l m : Limits)
    → take_limit l arg ≡ some m
    → (value_of l.lobby_max_fd (last_of (codes "lobbyN=") (arg ∷ [])) ≡ some m.lobby_max_fd)
      × (value_of l.ch_max_fd (last_of (codes "chN=") (arg ∷ [])) ≡ some m.ch_max_fd)
unfolding take_limit set_limit value_of last_of
take_limit_value arg l m h = ground (arith, keys_differ arg)

value_of_later :
    (key arg : Bytes) (args : List Bytes) (a b : ℤ)
    → value_of a (last_of key (arg ∷ [])) ≡ some b
    → value_of a (last_of key (arg ∷ args)) ≡ value_of b (last_of key args)
unfolding value_of last_of
value_of_later key arg args a b h = ground arith

-- Where main reads its arguments without undefined behaviour, each limit is the number in the last
-- argument with its key, and the default if there is none.
pub take_limits_last :
    (args : List Bytes) (l l' : Limits)
    → take_limits l args ≡ some l'
    → (value_of l.lobby_max_fd (last_of (codes "lobbyN=") args) ≡ some l'.lobby_max_fd)
      × (value_of l.ch_max_fd (last_of (codes "chN=") args) ≡ some l'.ch_max_fd)
unfolding take_limits value_of last_of
take_limits_last [] l l' h = ground arith
take_limits_last (arg ∷ args) l l' h = elim (Option-cases (take_limit l arg)) [
  | inl e ↦ ground arith
  | inr (m, e) ↦
      let rest : take_limits m args ≡ some l' = ground arith in
      let (lobby, ch) = take_limit_value arg l m e in
      let (lobbies, chs) = take_limits_last args m l' rest in
      (
        value_of_later (codes "lobbyN=") arg args l.lobby_max_fd m.lobby_max_fd lobby ∙ lobbies,
        value_of_later (codes "chN=") arg args l.ch_max_fd m.ch_max_fd ch ∙ chs,
      )
]
