-- ===== src/Server/Lobby/Locks/Found.antt =====
-- The lock of the channel that `ChannelServer::find_or_create_channel` returns
-- (src/server/channel_server.cpp).
use cpp_chat_channel.Base.{
  ℕ, suc, ◌≡◌, refl, ap, inl, inr, Option, none, some, [], Bool, true, false, arith, nat_eq,
  if◌then◌else◌, Option-cases, length,
}
use cpp_chat_channel.Base.Assoc.{lookup, insert}
use cpp_chat_channel.Effects.{Outcome, ok, throw, hangs, return}
use cpp_chat_channel.Os.{Os}
use cpp_chat_channel.Json.{Jansson}
use cpp_chat_channel.Server.{Globals, Server}
use cpp_chat_channel.Server.Base.Life.{construct}
use cpp_chat_channel.Server.Chat as Chat
use cpp_chat_channel.Server.Chat.{Chat}
use cpp_chat_channel.Server.Channel.Worker as Worker
use cpp_chat_channel.Server.Channel.{Room}
use cpp_chat_channel.Server.Lobby.{
  Lobby, Channel, with_channels, new_room, room_hooks, lock_pool, try_channel, find_channel,
  new_channel, get_channel, first_free, create_channel, find_other, find_or_create_channel, keys,
}
use cpp_chat_channel.Server.Lobby.Calls.{is_locked}
use cpp_chat_channel.Server.Lobby.Locks.{
  LockedAt, Post, Ends, Ends-bind, Ends-then, Ends-return, insert-LockedAt,
}
use cpp_chat_channel.Server.Lobby.Locks.Calls.{
  open_server-derived, lock_pool-Ends, if_found, try_channel-Ends, find_channel-Ends,
}

module _ (os : Os) (jansson : Jansson) (reads : ℕ) where
  construct-derived :
      (max : ℕ) (id : ℕ) (g : Globals os.Kernel)
      → (construct os (Chat Room) (room_hooks os jansson reads) max 100 (new_room id) g).1.0.derived
        ≡ new_room id
  unfolding construct
  construct-derived max id g =
      let start : Server (Chat Room) = record {
        con_tracker = none;
        comm = none;
        timeout = 100;
        next_deletion = [];
        is_running = true;
        derived = new_room id;
      } in
      ground (arith, open_server-derived os (Chat Room) max (start, g))

  -- A new channel is not locked.
  abbrev Made : Outcome (Channel os.Kernel) × Globals os.Kernel → Type 0
  Made (ok ch, g) = is_locked ch ≡ false
  Made (throw e, g) = Unit
  Made (hangs, g) = Unit

  made :
      (a b : Outcome (Unit {0})) (ch : Channel os.Kernel) (g g' : Globals os.Kernel)
      → is_locked ch ≡ false
      → Made (elim a [
        | ok _ ↦ elim b [ ok _ ↦ (ok ch, g) | throw e ↦ (hangs, g) | hangs ↦ (hangs, g) ]
        | throw e ↦ (throw e, g')
        | hangs ↦ (hangs, g)
      ])
  made (ok a) (ok b) ch g g' h = h
  made (ok a) (throw e) ch g g' h = tt
  made (ok a) hangs ch g g' h = tt
  made (throw e) b ch g g' h = tt
  made hangs b ch g g' h = tt

  new_channel-Made :
      (id max : ℕ) (g : Globals os.Kernel) → Made (new_channel os jansson reads id max g)
  unfolding new_channel
  new_channel-Made id max g =
      let (tasks, (s, g1)) =
        construct os (Chat Room) (room_hooks os jansson reads) max 100 (new_room id) g in
      let (r, tasks1) = Chat.install os jansson Room tasks in
      let (r2, tasks2) = Worker.install os tasks1 in
      made r r2 (tasks2, s) g1 _ (ap (λ d. d.more.pool_locked) (construct-derived max id g))

  put_new :
      (id : ℕ) (s : Server (Lobby os.Kernel))
      → LockedAt none s
      → (x : Outcome (Channel os.Kernel) × Globals os.Kernel) → Made x
      → Post {K = os.Kernel} {A = Unit {0}}
          (λ _. none)
          (elim x.0 [
            | ok channel ↦ (ok tt, (with_channels s (insert id channel s.derived.channels), x.1))
            | throw e ↦ (throw e, (s, x.1))
            | hangs ↦ (hangs, (s, x.1))
          ])
  put_new id s h (ok ch, g) k = insert-LockedAt os none none id ch s h (λ j e. refl) k
  put_new id s h (throw e, g) k = tt
  put_new id s h (hangs, g) k = tt

  pub get_channel-Ends : (id : ℕ) → Ends os (get_channel os jansson reads id) none (λ _. none)
  unfolding get_channel
  get_channel-Ends id (s, g) h = elim (Option-cases (lookup id s.derived.channels)) [
    | inl e ↦
        rw (e, get_channel)
          (put_new id s h (new_channel os jansson reads id s.derived.ch_max_fd g)
            (new_channel-Made id s.derived.ch_max_fd g))
    | inr (channel, e) ↦ rw (e, get_channel) h
  ]

  create_channel-Ends : Ends os (create_channel os jansson reads) none some
  unfolding create_channel
  create_channel-Ends (s, g) =
      let new_id = first_free (suc (length s.derived.channels)) s.derived.channels 1 in
      Ends-then os none none some (get_channel os jansson reads new_id) _ (get_channel-Ends new_id)
        (Ends-then os none (some new_id) some (lock_pool os new_id) _ (lock_pool-Ends os new_id)
          (Ends-return os new_id some))
        (s, g)

  find_other-Ends : (preferred : ℕ) → Ends os (find_other os jansson reads preferred) none some
  unfolding find_other
  find_other-Ends preferred (s, g) =
      Ends-bind os none (λ found. found) some (find_channel os preferred (keys s.derived.channels))
        _ (find_channel-Ends os preferred (keys s.derived.channels)) next (s, g)
    where
      next :
          (found : Option ℕ)
          → Ends os
              (elim found [ none ↦ create_channel os jansson reads | some id ↦ return id ])
              found
              some
      next none = create_channel-Ends
      next (some id) = Ends-return os id some

  -- The lobby holds the lock of the channel that is returned, and no other.
  pub find_or_create_channel-Ends :
      (preferred : ℕ) → Ends os (find_or_create_channel os jansson reads preferred) none some
  unfolding find_or_create_channel
  find_or_create_channel-Ends preferred =
      Ends-then os none none some (get_channel os jansson reads preferred) _
        (get_channel-Ends preferred)
        (Ends-bind os none (if_found os preferred) some (try_channel os preferred) _
          (try_channel-Ends os preferred) next)
    where
      next :
          (b : Bool)
          → Ends os
              (if b then return preferred else find_other os jansson reads preferred)
              (if_found os preferred b)
              some
      next true = Ends-return os preferred some
      next false = find_other-Ends preferred
