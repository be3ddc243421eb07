-- ===== src/Server/Lobby/Locks/Calls.antt =====
-- The calls of a channel's methods and its lock (src/server/channel_server.cpp).
use cpp_chat_channel.Base.{
  ℕ, ◌≡◌, refl, sym, ◌∙◌, subst, Option, none, some, List, [], ◌∷◌, Bool, true, false, arith, ◌==◌,
  ==_refl, nat_eq, if◌then◌else◌,
}
use cpp_chat_channel.Effects.{Outcome, ok, throw, hangs, ◌>>◌, return}
use cpp_chat_channel.Os.{Fd, Os}
use cpp_chat_channel.Server.{State}
use cpp_chat_channel.Server.Base.{Method, mark}
use cpp_chat_channel.Server.Base.Life.{network_up, open_server}
use cpp_chat_channel.Server.Chat.{Chat}
use cpp_chat_channel.Server.Channel.{
  Room, ping_pool, wait_stop_pooling, start_pooling, join, leave, join_and_logging,
  leave_and_logging,
}
use cpp_chat_channel.Server.Lobby.{
  Lobby, on_channel, ping, lock_pool, unlock_pool, try_channel, find_channel,
}
use cpp_chat_channel.Server.Lobby.Locks.{
  held_at, Ends, Ends-bind, Ends-then, Ends-return, Sets, on_channel-Ends,
}

module _ (os : Os) where
  pub open_server-derived :
      (D : Type 0) (max : ℕ) (t : State os.Kernel D)
      → (open_server os D max t).1.0.derived ≡ t.0.derived
  unfolding open_server network_up
  open_server-derived D max (s, g) = ground arith

  pub lock_after :
      {A : Type 0} (b : Bool) (x : Outcome A × State os.Kernel (Chat Room))
      → x.1.0.derived.more.pool_locked ≡ b
      → Sets os b x
  lock_after b (ok a, t) h = h
  lock_after b (throw e, t) h = tt
  lock_after b (hangs, t) h = tt

  wait_stop_pooling-locks :
      (t : State os.Kernel (Chat Room))
      → t.0.derived.more.pool_locked ≡ false
      → Sets os true (wait_stop_pooling os t)
  unfolding wait_stop_pooling
  wait_stop_pooling-locks t e = rw (e, wait_stop_pooling) refl

  join_and_logging_keeps :
      (fd : Fd) (time : ℕ) (re : Bool) (t : State os.Kernel (Chat Room))
      → (join_and_logging os fd time re t).1.0.derived.more.pool_locked
        ≡ t.0.derived.more.pool_locked
  unfolding join_and_logging join
  join_and_logging_keeps fd time re t = ground arith

  leave_and_logging_keeps :
      (fd : Fd) (time : ℕ) (t : State os.Kernel (Chat Room))
      → (leave_and_logging os fd time t).1.0.derived.more.pool_locked ≡ t.0.derived.more.pool_locked
  unfolding leave_and_logging leave mark
  leave_and_logging_keeps fd time t = ground arith

  pub lock_pool-Ends : (id : ℕ) → Ends os (lock_pool os id) none (λ _. some id)
  unfolding lock_pool
  lock_pool-Ends id =
      on_channel-Ends os none (some id) id (wait_stop_pooling os) (λ j e. sym e)
        (λ t e.
          subst (λ b. Sets os b (wait_stop_pooling os t)) (sym (==_refl id))
            (wait_stop_pooling-locks t e))

  pub unlock_pool-Ends : (id : ℕ) → Ends os (unlock_pool os id) (some id) (λ _. none)
  unfolding unlock_pool start_pooling
  unlock_pool-Ends id =
      on_channel-Ends os (some id) none id (start_pooling os) (λ j e. e) (λ t e. refl)

  pub ping-Ends : (o : Option ℕ) (id : ℕ) → Ends os (ping os id) o (λ _. o)
  unfolding ping
  ping-Ends o id =
      on_channel-Ends os o o id (λ s. (ok (ping_pool os s.0), s)) (λ j e. refl) (λ t e. e)

  pub join_and_logging-Ends :
      (o : Option ℕ) (id : ℕ) (fd : Fd) (time : ℕ) (re : Bool)
      → Ends os (on_channel os id (join_and_logging os fd time re)) o (λ _. o)
  join_and_logging-Ends o id fd time re =
      on_channel-Ends os o o id (join_and_logging os fd time re) (λ j e. refl)
        (λ t e.
          lock_after (held_at o id) (join_and_logging os fd time re t)
            (join_and_logging_keeps fd time re t ∙ e))

  pub leave_and_logging-Ends :
      (o : Option ℕ) (id : ℕ) (fd : Fd) (time : ℕ)
      → Ends os (on_channel os id (leave_and_logging os fd time)) o (λ _. o)
  leave_and_logging-Ends o id fd time =
      on_channel-Ends os o o id (leave_and_logging os fd time) (λ j e. refl)
        (λ t e.
          lock_after (held_at o id) (leave_and_logging os fd time t)
            (leave_and_logging_keeps fd time t ∙ e))

  if_Ends :
      {A : Type 0} (b : Bool) (o : Option ℕ) (q : A → Option ℕ)
      (m k : Method os (Lobby os.Kernel) A)
      → (b ≡ true → Ends os m o q)
      → (b ≡ false → Ends os k o q)
      → Ends os (if b then m else k) o q
  if_Ends true o q m k p l = p refl
  if_Ends false o q m k p l = l refl

  -- The lock that is kept by a channel that is found.
  abbrev pub if_found : ℕ → Bool → Option ℕ
  if_found id found = if found then some id else none

  pub try_channel-Ends : (id : ℕ) → Ends os (try_channel os id) none (if_found id)
  unfolding try_channel
  try_channel-Ends id =
      Ends-then os none (some id) (if_found id) (lock_pool os id) _ (lock_pool-Ends id) (
        Ends-bind os (some id) (λ _. some id) (if_found id) (ping os id) _ (ping-Ends (some id) id)
          (λ b. decide b))
    where
      decide :
          (b : Bool)
          → Ends os
              (if b then return true else (unlock_pool os id >> return false))
              (some id)
              (if_found id)
      decide true = Ends-return os true (if_found id)
      decide false =
          Ends-then os (some id) none (if_found id) (unlock_pool os id) (return false)
            (unlock_pool-Ends id) (Ends-return os false (if_found id))

  pub find_channel-Ends :
      (preferred : ℕ) (ids : List ℕ) → Ends os (find_channel os preferred ids) none (λ found. found)
  unfolding find_channel
  find_channel-Ends preferred [] = Ends-return os none (λ found. found)
  find_channel-Ends preferred (id ∷ ids) =
      if_Ends (id == preferred) none (λ found. found) (find_channel os preferred ids) _
        (λ _. find_channel-Ends preferred ids)
        (λ _.
          Ends-bind os none (if_found id) (λ found. found) (try_channel os id) _
            (try_channel-Ends id)
            (λ b. next (find_channel os preferred ids) (find_channel-Ends preferred ids) b))
    where
      next :
          (rest : Method os (Lobby os.Kernel) (Option ℕ))
          → Ends os rest none (λ found. found)
          → (b : Bool)
          → Ends os (if b then return (some id) else rest) (if_found id b) (λ found. found)
      next rest k true = Ends-return os (some id) (λ found. found)
      next rest k false = k
