-- ===== src/Server/Lobby/Trial.antt =====
-- How `ChannelServer::find_or_create_channel` tries one channel (src/server/channel_server.cpp).
use cpp_chat_channel.Base.{
  ℕ, ◌≡◌, refl, sym, ap, ◌∙◌, some, Bool, true, false, nat_eq, if◌then◌else◌,
}
use cpp_chat_channel.Base.Assoc.{lookup}
use cpp_chat_channel.Effects.{ok, bind_outcome}
use cpp_chat_channel.Os.{Os}
use cpp_chat_channel.Server.{Globals, Server}
use cpp_chat_channel.Server.Channel.{with_room, ping_pool}
use cpp_chat_channel.Server.Lobby.{
  Lobby, Channel, put_channel, ping, lock_pool, unlock_pool, try_channel,
}
use cpp_chat_channel.Server.Lobby.Calls.{
  is_locked, locked, lookup-put_channel, put_channel_same, ping_lem, lock_pool_free,
  unlock_pool_lem,
}

module _ (os : Os) where
  abbrev pub has_space : Channel os.Kernel → Bool
  has_space ch = ping_pool os ch.1

  has_space-locked : (ch : Channel os.Kernel) → ping_pool os (locked ch).1 ≡ has_space ch
  unfolding ping_pool
  has_space-locked ch = refl

module _ (os : Os) (s : Server (Lobby os.Kernel)) (g : Globals os.Kernel) where
  try_channel_steps :
      (id : ℕ) (s1 : Server (Lobby os.Kernel)) (b : Bool)
      → lock_pool os id (s, g) ≡ (ok tt, (s1, g))
      → ping os id (s1, g) ≡ (ok b, (s1, g))
      → try_channel os id (s, g) ≡ (
          if b
          then (ok true, (s1, g))
          else bind_outcome (unlock_pool os id (s1, g)) (λ _ t. (ok false, t)))
  unfolding try_channel
  try_channel_steps id s1 true p q = rw (p, q, try_channel)
  try_channel_steps id s1 false p q = rw (p, q, try_channel)

-- Unlocking the pools of a locked channel gives the channel back that was free.
unlocked-locked :
    {K : Type 0} (ch : Channel K)
    → is_locked ch ≡ false
    → ◌≡◌ {A = Channel K}
        (ch.0, with_room (locked ch).1 (record (ch.1.derived.more) { pool_locked = false }))
        ch
unlocked-locked ch free =
    ap (λ b. (ch.0, with_room ch.1 (record (ch.1.derived.more) { pool_locked = b }))) (sym free)

module _ (os : Os) (s : Server (Lobby os.Kernel)) (g : Globals os.Kernel) (id : ℕ)
    (ch : Channel os.Kernel) (there : lookup id s.derived.channels ≡ some ch)
    (free : is_locked ch ≡ false) where
  pub ping_held :
      ping os id (put_channel s id (locked ch), g)
      ≡ (ok (has_space os ch), (put_channel s id (locked ch), g))
  ping_held =
      ping_lem os (put_channel s id (locked ch)) g id (locked ch)
        (lookup-put_channel s id (locked ch))
      ∙ ap (λ b. (ok b, (put_channel s id (locked ch), g))) (has_space-locked os ch)

  pub unlock_held : unlock_pool os id (put_channel s id (locked ch), g) ≡ (ok tt, (s, g))
  unlock_held =
      unlock_pool_lem os (put_channel s id (locked ch)) g id (locked ch)
        (lookup-put_channel s id (locked ch))
      ∙ ap (λ x. (ok tt, (put_channel (put_channel s id (locked ch)) id x, g)))
          (unlocked-locked ch free)
      ∙ ap (λ x. (ok tt, (x, g))) (put_channel_same s id ch (locked ch) there)

  -- A channel with space is left locked, a full one is left as it was.
  pub try_channel_lem :
      (b : Bool)
      → has_space os ch ≡ b
      → try_channel os id (s, g)
        ≡ (if b then (ok true, (put_channel s id (locked ch), g)) else (ok false, (s, g)))
  try_channel_lem true h =
      try_channel_steps os s g id (put_channel s id (locked ch)) true
        (lock_pool_free os s g id ch there free)
        (ping_held ∙ ap (λ b. (ok b, (put_channel s id (locked ch), g))) h)
  try_channel_lem false h =
      try_channel_steps os s g id (put_channel s id (locked ch)) false
        (lock_pool_free os s g id ch there free)
        (ping_held ∙ ap (λ b. (ok b, (put_channel s id (locked ch), g))) h)
      ∙ ap (λ x. bind_outcome x (λ _ t. (ok false, t))) unlock_held
