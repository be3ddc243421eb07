-- ===== src/Server/Main/Stops.antt =====
-- When the server's loop ends (src/server/server.cpp).
use cpp_chat_channel.Base.{
  ℕ, ◌≡◌, refl, ap, ◌∙◌, subst, some, List, [], ◌∷◌, ◌&&◌, ◌||◌, not, Bool-cases, inl, inr, Bool,
  true, false, arith, if◌then◌else◌, Bytes, pos, codes,
}
use cpp_chat_channel.Effects.{Exn, Outcome, ok, throw, hangs, bind_outcome, session_out_of_range}
use cpp_chat_channel.Os.{fd_err, Os}
use cpp_chat_channel.Json.{Jansson}
use cpp_chat_channel.Tasks.{new_session, pushb, pushf, exec_locked, session_pushb, session_pushf}
use cpp_chat_channel.Server.{Globals, Server, State}
use cpp_chat_channel.Server.Base.Life.{
  open_server, network_up, install, construct, proc, set_network, stop,
}
use cpp_chat_channel.Server.Base.{Hooks}
use cpp_chat_channel.Server.Lobby.{Lobby, Channel}
use cpp_chat_channel.Server.Lobby.Upkeep.{
  construct_lobby, destroy_lobby, delete_channel, delete_channels, channels_of, lobby_hooks,
}
use cpp_chat_channel.Server.Channel.Worker.{join_worker}
use cpp_chat_channel.Server.Lobby.Upkeep as Upkeep
use cpp_chat_channel.Server.Lobby.Running.{clear_task-Runs, resolve_deletion-Runs, upkeep-Runs}
use cpp_chat_channel.Server.Lobby.Running.Handlers.{
  consume_report-Runs, poll_task-Runs, events_task-Runs,
}
use cpp_chat_channel.Server.Main.Arguments.{value_of, last_of, take_limits_last}
use cpp_chat_channel.Server.Main.{
  Limits, default_limits, take_limits, to_size, signal_handler, run_server, shut_down, main,
}
use cpp_chat_channel.Server.Main.Serving.{
  until_signal, has_signal, Running, GoesOn, finish, serve_lem,
}

module _ (os : Os) where
  open_server_running :
      (max : ℕ) (t : State os.Kernel (Lobby os.Kernel))
      → (open_server os (Lobby os.Kernel) max t).1.0.is_running ≡ t.0.is_running
  unfolding open_server network_up
  open_server_running max (s, g) = ground arith

module _ (os : Os) (jansson : Jansson) (reads : ℕ) where
  abbrev hooks : Hooks os (Lobby os.Kernel)
  hooks = lobby_hooks os jansson reads

  -- The object after the constructor's body.
  abbrev built : Outcome (Unit {0}) × State os.Kernel (Lobby os.Kernel) → Running os
  built x =
      let (tasks, t) : Running os = elim x.0 [
        | ok _ ↦ ((install os (Lobby os.Kernel) hooks []).1, x.1)
        | throw _ ↦ ([], x.1)
        | hangs ↦ ([], x.1)
      ] in
      ((Upkeep.install os jansson reads tasks).1, t)

  built-GoesOn :
      (x : Outcome (Unit {0}) × State os.Kernel (Lobby os.Kernel))
      → x.1.0.is_running ≡ true
      → GoesOn os (built x)
  unfolding install Upkeep.install new_session pushb pushf exec_locked session_pushb session_pushf
  built-GoesOn (ok _, t) e = (
    (
      (clear_task-Runs os, (consume_report-Runs os jansson reads, tt)),
      (
        (poll_task-Runs os jansson reads, (events_task-Runs os jansson reads, tt)),
        ((upkeep-Runs os, (resolve_deletion-Runs os, tt)), tt),
      ),
    ),
    e,
  )
  built-GoesOn (throw _, t) e = (tt, e)
  built-GoesOn (hangs, t) e = (tt, e)

  -- The lobby after the constructor, with the tasks of ServerBase or without.
  pub construct_lobby-GoesOn :
      (max_fd ch_max to : ℕ) (g : Globals os.Kernel)
      → GoesOn os (construct_lobby os jansson reads max_fd ch_max to g).1
  unfolding construct_lobby construct
  construct_lobby-GoesOn max_fd ch_max to g = built-GoesOn _ (open_server_running os max_fd (_, g))

  -- Whether the destructor waits for a worker for ever: its pools are locked and it goes on.
  abbrev pub any_stuck : List (ℕ × Channel os.Kernel) → Bool
  any_stuck [] = false
  any_stuck (entry ∷ m) =
      let r = entry.1.1.derived.more in (r.pool_locked && not r.stop_flag) || any_stuck m

  delete_channels-stuck :
      (m : List (ℕ × Channel os.Kernel)) (g : Globals os.Kernel)
      → (delete_channels os (channels_of os m) g).0 ≡ (if any_stuck m then hangs else ok tt)
  unfolding delete_channels delete_channel join_worker
  delete_channels-stuck [] g = refl
  delete_channels-stuck (entry ∷ m) g =
      let r = entry.1.1.derived.more in
      elim (Bool-cases (r.pool_locked && not r.stop_flag)) [
        | inl e ↦ rw (e, delete_channels, delete_channel, join_worker) refl
        | inr e ↦ rw (e, delete_channels, delete_channel, join_worker) (delete_channels-stuck m _)
      ]

  shut_down-stuck :
      (s : Server (Lobby os.Kernel)) (g : Globals os.Kernel)
      → (shut_down os (s, g)).0 ≡ (if any_stuck s.derived.channels then hangs else ok true)
  unfolding shut_down destroy_lobby
  shut_down-stuck s g = ground (arith, delete_channels-stuck s.derived.channels g)

  -- What main gives after the rounds of its loop, of which the last had a signal or none had.
  abbrev pub end_of : Bool → Outcome (Unit {0}) × Running os → Outcome Bool × Globals os.Kernel
  end_of true (ok _, (tasks, (s, g))) = (
    if any_stuck s.derived.channels then hangs else ok true,
    (shut_down os (record s { is_running = false }, g)).1,
  )
  end_of false (ok _, (tasks, (s, g))) = (ok false, g)
  end_of b (throw e, (tasks, (s, g))) = (throw e, g)
  end_of b (hangs, (tasks, (s, g))) = (hangs, g)

  abbrev closing : Outcome Bool × Running os → Outcome Bool × Globals os.Kernel
  closing (ended, (tasks, u)) = elim ended [
    | ok b ↦ if b then shut_down os u else (ok false, u.1)
    | throw e ↦ (throw e, u.1)
    | hangs ↦ (hangs, u.1)
  ]

  closed :
      (b : Bool) (x : Outcome (Unit {0}) × Running os)
      → closing (bind_outcome x (λ _. finish os b)) ≡ end_of b x
  unfolding signal_handler stop
  closed true (ok _, (tasks, (s, g))) =
      let r = shut_down os (record s { is_running = false }, g) in
      ap (λ o. (o, r.1)) (shut_down-stuck (record s { is_running = false }) g)
  closed false (ok _, u) = refl
  closed true (throw x, u) = refl
  closed false (throw x, u) = refl
  closed true (hangs, u) = refl
  closed false (hangs, u) = refl

  served :
      (rounds : List Bool) (t : Running os)
      → GoesOn os t
      → run_server os jansson reads rounds (ok tt, t)
        ≡ end_of (has_signal rounds) (proc os (Lobby os.Kernel) (until_signal rounds) t)
  unfolding run_server
  served rounds t h = ap closing (serve_lem os rounds t h) ∙ closed (has_signal rounds) _

  -- Where the arguments are in range and the constructor returns for the limits of the last arguments
  -- lobbyN= and chN=, or the default 32, the server does exactly the rounds up to the one in which the
  -- first signal comes, which ends the loop. Then main destroys the lobby with its channels and
  -- returns, unless a channel's pools are left locked while its worker goes on: the destructor waits for
  -- that worker for ever, and main hangs. Without a signal the server does every round and still runs.
  -- A round that hangs makes main hang.
  pub main_lem :
      (args : List Bytes) (rounds : List Bool) (g : Globals os.Kernel) (l : Limits) (t : Running os)
      → take_limits default_limits args ≡ some l
      → construct_lobby os jansson reads (to_size l.lobby_max_fd) (to_size l.ch_max_fd) 0 g
        ≡ (ok tt, t)
      → (main os jansson reads args rounds g
          ≡ some (end_of (has_signal rounds) (proc os (Lobby os.Kernel) (until_signal rounds) t)))
        × (value_of (pos 32) (last_of (codes "lobbyN=") args) ≡ some l.lobby_max_fd)
        × (value_of (pos 32) (last_of (codes "chN=") args) ≡ some l.ch_max_fd)
  unfolding main default_limits
  main_lem args rounds g l t limits done =
      let going = subst (λ x. GoesOn os x.1) done (construct_lobby-GoesOn _ _ 0 g) in
      (
        rw (limits, done, main) (ap some (served rounds t going)),
        (take_limits_last args default_limits l limits).0,
        (take_limits_last args default_limits l limits).1,
      )

  -- Where the arguments are in range but the server's socket is not to be had, the constructor of
  -- ServerBase reports it and installs no sessions, so that the constructor of ChannelServer throws
  -- when it adds its task, and main ends with that exception.
  pub main_fails :
      (args : List Bytes) (rounds : List Bool) (g g' : Globals os.Kernel) (l : Limits) (e : Exn)
      → take_limits default_limits args ≡ some l
      → g.listener ≡ fd_err
      → set_network os (Lobby os.Kernel) g ≡ (throw e, g')
      → main os jansson reads args rounds g ≡ some (throw session_out_of_range, g')
  unfolding main construct_lobby construct open_server network_up Upkeep.install pushb exec_locked
      run_server
  main_fails args rounds g g' l e limits down fails = ground arith
