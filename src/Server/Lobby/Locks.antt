-- ===== src/Server/Lobby/Locks.antt =====
-- Which channel's pools the lobby holds locked (src/server/channel_server.cpp).
pub mod Calls
pub mod Found
use cpp_chat_channel.Base.{
  ℕ, suc, ◌≡◌, refl, sym, ap, ◌∙◌, subst, inl, inr, Option, none, some, List, [], ◌∷◌, Bool, true,
  false, arith, ◌==◌, ==_iff, ==_refl, nat_eq, if◌then◌else◌, Option-cases, length,
}
use cpp_chat_channel.Base.Assoc.{lookup, insert, lookup-insert, IsDistinct}
use cpp_chat_channel.Effects.{Outcome, ok, throw, hangs, ◌>>=◌, ◌>>◌, bind_outcome, return}
use cpp_chat_channel.Os.{Fd, Os}
use cpp_chat_channel.Json.{Jansson}
use cpp_chat_channel.Server.{Globals, Server, State}
use cpp_chat_channel.Server.Base.{Method, mark}
use cpp_chat_channel.Server.Base.Life.{network_up, open_server, construct}
use cpp_chat_channel.Server.Chat as Chat
use cpp_chat_channel.Server.Chat.{Chat}
use cpp_chat_channel.Server.Channel.Worker as Worker
use cpp_chat_channel.Server.Channel.{
  Room, ping_pool, wait_stop_pooling, start_pooling, join, leave, join_and_logging,
  leave_and_logging,
}
use cpp_chat_channel.Server.Lobby.{
  Lobby, Channel, with_channels, new_room, room_hooks, on_channel, ping, lock_pool, unlock_pool,
  try_channel, find_channel, new_channel, get_channel, first_free, create_channel, find_other,
  find_or_create_channel, keys,
}
use cpp_chat_channel.Server.Lobby.Calls.{is_locked}
use cpp_chat_channel.Server.Lobby.Keys.{insert-IsDistinct}

-- Whether the lobby holds the lock of a channel, if it holds at most one.
abbrev pub held_at : Option ℕ → ℕ → Bool
held_at none id = false
held_at (some j) id = j == id

-- The lobby holds the lock of that channel and no other lock is taken; the channels have distinct
-- numbers.
abbrev pub LockedAt : {K : Type 0} → Option ℕ → Server (Lobby K) → Type 0
LockedAt {K} o s =
    ((id : ℕ) (ch : Channel K)
      → lookup id s.derived.channels ≡ some ch
      → is_locked ch ≡ held_at o id)
    × IsDistinct (keys s.derived.channels)

-- The locks after a return, by the value returned.
abbrev pub Post : {K A : Type 0} → (A → Option ℕ) → Outcome A × State K (Lobby K) → Type 0
Post q (ok a, s) = LockedAt (q a) s.0
Post q (throw e, s) = Unit
Post q (hangs, s) = Unit

-- A call that is made with some locks leaves some locks, where it returns.
abbrev pub Ends :
    (os : Os) {A : Type 0} → Method os (Lobby os.Kernel) A → Option ℕ → (A → Option ℕ) → Type 0
Ends os {A} m o q = (s : State os.Kernel (Lobby os.Kernel)) → LockedAt o s.0 → Post q (m s)

module _ (os : Os) where
  Post-bind :
      {A B : Type 0} (q : A → Option ℕ) (r : B → Option ℕ)
      (x : Outcome A × State os.Kernel (Lobby os.Kernel)) (f : A → Method os (Lobby os.Kernel) B)
      → Post q x
      → ((a : A) → Ends os (f a) (q a) r)
      → Post r (bind_outcome x f)
  Post-bind q r (ok a, s) f p k = k a s p
  Post-bind q r (throw e, s) f p k = tt
  Post-bind q r (hangs, s) f p k = tt

  pub Ends-bind :
      {A B : Type 0} (o : Option ℕ) (q : A → Option ℕ) (r : B → Option ℕ)
      (m : Method os (Lobby os.Kernel) A) (f : A → Method os (Lobby os.Kernel) B)
      → Ends os m o q
      → ((a : A) → Ends os (f a) (q a) r)
      → Ends os (m >>= f) o r
  Ends-bind o q r m f p k s h = Post-bind q r (m s) f (p s h) k

  pub Ends-then :
      {A B : Type 0} (o p : Option ℕ) (r : B → Option ℕ) (m : Method os (Lobby os.Kernel) A)
      (k : Method os (Lobby os.Kernel) B)
      → Ends os m o (λ _. p)
      → Ends os k p r
      → Ends os (m >> k) o r
  Ends-then o p r m k e l s h = Post-bind (λ _. p) r (m s) (λ _. k) (e s h) (λ _. l)

  pub Ends-return : {A : Type 0} (a : A) (q : A → Option ℕ) → Ends os (return a) (q a) q
  Ends-return a q s h = h

  -- What a call of a channel's method does to its lock, where it returns.
  abbrev pub Sets : {A : Type 0} → Bool → Outcome A × State os.Kernel (Chat Room) → Type 0
  Sets b (ok a, t) = t.0.derived.more.pool_locked ≡ b
  Sets b (throw e, t) = Unit
  Sets b (hangs, t) = Unit

  pub insert-LockedAt :
      (o p : Option ℕ) (id : ℕ) (ch : Channel os.Kernel) (s : Server (Lobby os.Kernel))
      → LockedAt o s
      → ((j : ℕ) → (id == j) ≡ false → held_at o j ≡ held_at p j)
      → is_locked ch ≡ held_at p id
      → LockedAt p (with_channels s (insert id ch s.derived.channels))
  insert-LockedAt o p id ch s h same new = (
    λ j c e.
        ground (arith, lookup-insert id j ch s.derived.channels, h.0 j c, same j, ==_iff id j, new),
    insert-IsDistinct id ch s.derived.channels h.1,
  )

  put_room :
      {A : Type 0} (o p : Option ℕ) (id : ℕ) (channel : Channel os.Kernel)
      (s : Server (Lobby os.Kernel))
      → LockedAt o s
      → ((j : ℕ) → (id == j) ≡ false → held_at o j ≡ held_at p j)
      → (x : Outcome A × State os.Kernel (Chat Room)) → Sets (held_at p id) x
      → Post {A = A}
          (λ _. p)
          (x.0, (with_channels s (insert id (channel.0, x.1.0) s.derived.channels), x.1.1))
  put_room o p id channel s h same (ok a, t) k = insert-LockedAt o p id (channel.0, t.0) s h same k
  put_room o p id channel s h same (throw e, t) k = tt
  put_room o p id channel s h same (hangs, t) k = tt

  pub on_channel-Ends :
      {A : Type 0} (o p : Option ℕ) (id : ℕ) (m : Method os (Chat Room) A)
      → ((j : ℕ) → (id == j) ≡ false → held_at o j ≡ held_at p j)
      → ((t : State os.Kernel (Chat Room))
          → t.0.derived.more.pool_locked ≡ held_at o id
          → Sets (held_at p id) (m t))
      → Ends os (on_channel os id m) o (λ _. p)
  unfolding on_channel
  on_channel-Ends o p id m same sets (s, g) h = elim (Option-cases (lookup id s.derived.channels)) [
    | inl e ↦ rw (e, on_channel) tt
    | inr (channel, e) ↦
        rw (e, on_channel)
          (put_room o p id channel s h same (m (channel.1, g))
            (sets (channel.1, g) (h.0 id channel e)))
  ]
