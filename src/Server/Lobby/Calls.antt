-- ===== src/Server/Lobby/Calls.antt =====
-- Calls of `ChannelServer` through its map of channels (src/server/channel_server.cpp).
use cpp_chat_channel.Base.{
  ℕ, zero, suc, ◌+◌, leb, ◌≤◌, ◌<◌, ◌≡◌, refl, ap, ◌∙◌, inl, inr, none, some, List, [], ◌∷◌, Bool,
  true, false, arith, ==_iff, nat_eq, int_eq, if◌then◌else◌, Option-cases, length,
}
use cpp_chat_channel.Base.Assoc.{lookup, lookup-insert, insert-insert, insert_same}
use cpp_chat_channel.Effects.{Outcome, ok, hangs}
use cpp_chat_channel.Os.{Os}
use cpp_chat_channel.Json.{Jansson}
use cpp_chat_channel.Server.{Globals, Server}
use cpp_chat_channel.Server.Base.{Method}
use cpp_chat_channel.Server.Chat.{Chat}
use cpp_chat_channel.Server.Channel.{Room, with_room, ping_pool, wait_stop_pooling, start_pooling}
use cpp_chat_channel.Server.Lobby.{
  Lobby, Channel, with_channels, put_channel, first_free, on_channel, get_channel, ping, lock_pool,
  unlock_pool,
}

abbrev pub is_locked : {K : Type 0} → Channel K → Bool
is_locked ch = ch.1.derived.more.pool_locked

-- The channel with its pools locked.
abbrev pub locked : {K : Type 0} → Channel K → Channel K
locked ch = (ch.0, with_room ch.1 (record (ch.1.derived.more) { pool_locked = true }))

-- How many entries have the key `id` or a larger one.
count_from : {A : Type 0} → ℕ → List (ℕ × A) → ℕ
count_from id [] = 0
count_from id (entry ∷ m) = let rest = count_from id m in if leb id entry.0 then suc rest else rest

module _ {A : Type 0} where
  count_from-le : (id : ℕ) (m : List (ℕ × A)) → count_from id m ≤ length m
  unfolding count_from
  count_from-le id [] = omega arith
  count_from-le id (entry ∷ m) = ground (arith, count_from-le id m)

  count_from_next : (id : ℕ) (m : List (ℕ × A)) → count_from (id + 1) m ≤ count_from id m
  unfolding count_from
  count_from_next id [] = omega arith
  count_from_next id (entry ∷ m) = ground (arith, count_from_next id m)

  count_from_taken :
      (id : ℕ) (m : List (ℕ × A)) (v : A)
      → lookup id m ≡ some v
      → count_from (id + 1) m < count_from id m
  unfolding count_from lookup
  count_from_taken id [] v h = cc
  count_from_taken id (entry ∷ m) v h =
      ground (arith, count_from_next id m, count_from_taken id m v, ==_iff entry.0 id)

  -- With a round more than there are entries, a free key is found.
  first_free_from :
      (fuel : ℕ) (m : List (ℕ × A)) (id : ℕ)
      → count_from id m < fuel
      → (lookup (first_free fuel m id) m ≡ none) × (id ≤ first_free fuel m id)
  unfolding first_free
  first_free_from zero m id h = absurd (omega arith)
  first_free_from (suc fuel) m id h = elim (Option-cases (lookup id m)) [
    | inl e ↦ ground arith
    | inr (v, e) ↦
        ground (arith, first_free_from fuel m (id + 1) (omega (arith, count_from_taken id m v e)))
  ]

  -- The key of a new channel is free.
  pub first_free_lem : (m : List (ℕ × A)) → lookup (first_free (suc (length m)) m 1) m ≡ none
  first_free_lem m = (first_free_from (suc (length m)) m 1 (omega (arith, count_from-le 1 m))).0

pub lookup-put_channel :
    {K : Type 0} (s : Server (Lobby K)) (id : ℕ) (ch : Channel K)
    → lookup id (put_channel s id ch).derived.channels ≡ some ch
lookup-put_channel s id ch = ground (arith, lookup-insert id id ch s.derived.channels, ==_iff id id)

-- Writing a channel back as it was.
pub put_channel_same :
    {K : Type 0} (s : Server (Lobby K)) (id : ℕ) (ch ch' : Channel K)
    → lookup id s.derived.channels ≡ some ch
    → put_channel (put_channel s id ch') id ch ≡ s
put_channel_same s id ch ch' h =
    ap (with_channels s)
      (insert-insert id ch' ch s.derived.channels ∙ insert_same id ch s.derived.channels h)

pub put_channel_twice :
    {K : Type 0} (s : Server (Lobby K)) (id : ℕ) (ch ch' : Channel K)
    → put_channel (put_channel s id ch') id ch ≡ put_channel s id ch
put_channel_twice s id ch ch' = ap (with_channels s) (insert-insert id ch' ch s.derived.channels)

module _ (os : Os) (s : Server (Lobby os.Kernel)) (g : Globals os.Kernel) (id : ℕ)
    (ch : Channel os.Kernel) (there : lookup id s.derived.channels ≡ some ch) where
  -- What a call through the map does, by what the channel's method does.
  pub on_channel_lem :
      {A : Type 0} (m : Method os (Chat Room) A) (r : Outcome A) (room : Server (Chat Room))
      (g' : Globals os.Kernel)
      → m (ch.1, g) ≡ (r, (room, g'))
      → on_channel os id m (s, g) ≡ (r, (put_channel s id (ch.0, room), g'))
  unfolding on_channel
  on_channel_lem m r room g' e = rw (there, e, on_channel)

  pub get_channel_there :
      (jansson : Jansson) (reads : ℕ) → get_channel os jansson reads id (s, g) ≡ (ok tt, (s, g))
  unfolding get_channel
  get_channel_there jansson reads = rw (there, get_channel)

  pub ping_lem : ping os id (s, g) ≡ (ok (ping_pool os ch.1), (s, g))
  unfolding ping
  ping_lem =
      on_channel_lem (λ t. (ok (ping_pool os t.0), t)) (ok (ping_pool os ch.1)) ch.1 g refl
      ∙ ap (λ m. (ok (ping_pool os ch.1), (with_channels s m, g)))
          (insert_same id ch s.derived.channels there)

  pub lock_pool_free :
      is_locked ch ≡ false → lock_pool os id (s, g) ≡ (ok tt, (put_channel s id (locked ch), g))
  unfolding lock_pool wait_stop_pooling
  lock_pool_free h =
      on_channel_lem (wait_stop_pooling os) (ok tt) (locked ch).1 g
        (unfold wait_stop_pooling in ground arith)

  pub lock_pool_taken : is_locked ch ≡ true → lock_pool os id (s, g) ≡ (hangs, (s, g))
  unfolding lock_pool wait_stop_pooling
  lock_pool_taken h =
      on_channel_lem (wait_stop_pooling os) hangs ch.1 g (unfold wait_stop_pooling in ground arith)
      ∙ ap (λ m. (hangs, (with_channels s m, g))) (insert_same id ch s.derived.channels there)

  pub unlock_pool_lem : unlock_pool os id (s, g) ≡ (
    ok tt,
    (
      put_channel s id (ch.0, with_room ch.1 (record (ch.1.derived.more) { pool_locked = false })),
      g,
    ),
  )
  unfolding unlock_pool start_pooling
  unlock_pool_lem = on_channel_lem (start_pooling os) (ok tt) _ g (unfold start_pooling in refl)
