-- ===== src/Server/Main.antt =====
-- The server's program (src/server/server.cpp): its command line, its signals and `main`.
pub mod Serving
pub mod Stops
pub mod Arguments
use cpp_chat_channel.Base.{
  ℕ, ◌-◌, ◌^◌, Option, none, some, List, [], ◌∷◌, Bool, true, false, not, if◌then◌else◌, ℤ, pos,
  negsuc, Bytes, codes, drop,
}
use cpp_chat_channel.Text.{is_prefix, atoi}
use cpp_chat_channel.Effects.{Outcome, ok, throw, hangs, M, ◌>>◌, return, on_second}
use cpp_chat_channel.Os.{Os}
use cpp_chat_channel.Json.{Jansson}
use cpp_chat_channel.Tasks.{Runner}
use cpp_chat_channel.Server.{Globals, State}
use cpp_chat_channel.Server.Base.Life.{proc_round, stop}
use cpp_chat_channel.Server.Lobby.{Lobby}
use cpp_chat_channel.Server.Lobby.Upkeep.{construct_lobby, destroy_lobby}

-- lobby_max_fd and ch_max_fd
pub record Limits : Type 0 where
  pub lobby_max_fd : ℤ
  pub ch_max_fd : ℤ

unfoldable pub default_limits : Limits
default_limits = record { lobby_max_fd = pos 32; ch_max_fd = pos 32 }

-- The value of an argument, if atoi is defined on it.
unfoldable pub set_limit : (ℤ → Limits) → Bytes → Option Limits
unfolding atoi
set_limit update text = elim (atoi text) [ none ↦ none | some n ↦ some (update n) ]

-- One argument of the command line.
unfoldable pub take_limit : Limits → Bytes → Option Limits
unfolding set_limit is_prefix
take_limit l arg =
    if is_prefix (codes "lobbyN=") arg
    then set_limit (λ n. record l { lobby_max_fd = n }) (drop 7 arg)
    else if is_prefix (codes "chN=") arg
    then set_limit (λ n. record l { ch_max_fd = n }) (drop 4 arg)
    else some l

-- The loop over argv, without the program's name; `none` where the behaviour is undefined.
unfoldable pub take_limits : Limits → List Bytes → Option Limits
unfolding take_limit
take_limits l [] = some l
take_limits l (arg ∷ args) = elim (take_limit l arg) [ none ↦ none | some l' ↦ take_limits l' args ]

-- static_cast<size_t> of an int
unfoldable pub to_size : ℤ → ℕ
to_size (pos n) = n
to_size (negsuc n) = 2 ^ 64 - 1 - n

module _ (os : Os) where
  -- signal_handler, while g_server is set
  unfoldable pub signal_handler :
      M (Runner (State os.Kernel (Lobby os.Kernel)) × State os.Kernel (Lobby os.Kernel)) (Unit {0})
  unfolding stop
  signal_handler = on_second (stop os (Lobby os.Kernel))

  -- server.proc() with, for each round, whether a signal comes while it runs. No task reads
  -- `is_running`, so a signal that interrupts a round is handled as one at its end. The result is
  -- whether the loop has ended; it is `false` where it still runs after these rounds.
  unfoldable pub serve :
      List Bool
      → M (Runner (State os.Kernel (Lobby os.Kernel)) × State os.Kernel (Lobby os.Kernel)) Bool
  unfolding proc_round signal_handler
  serve [] (tasks, (s, g)) = (ok (not s.is_running), (tasks, (s, g)))
  serve (signalled ∷ rounds) (tasks, (s, g)) =
      let rest =
        (proc_round os (Lobby os.Kernel)
            >> ((if signalled then signal_handler else return tt) >> serve rounds))
          (tasks, (s, g)) in
      if s.is_running then rest else (ok true, (tasks, (s, g)))

  -- The destructor of the server, and the end of main.
  unfoldable pub shut_down : State os.Kernel (Lobby os.Kernel) → Outcome Bool × Globals os.Kernel
  unfolding destroy_lobby
  shut_down t =
      let (r, u) = destroy_lobby os t in
      (elim r [ ok _ ↦ ok true | throw e ↦ throw e | hangs ↦ hangs ], u.1)

  module _ (jansson : Jansson) (reads : ℕ) where
    -- The rest of main once the constructor is done: the loop, then the destructor.
    unfoldable pub run_server :
        List Bool
        → Outcome (Unit {0})
          × (Runner (State os.Kernel (Lobby os.Kernel)) × State os.Kernel (Lobby os.Kernel))
        → Outcome Bool × Globals os.Kernel
    unfolding serve shut_down
    run_server rounds (r, (tasks, (s, g))) =
        let (ended, (_, t)) = serve rounds (tasks, (s, g)) in
        elim r [
          | ok _ ↦ elim ended [
            | ok b ↦ if b then shut_down t else (ok false, t.1)
            | throw e ↦ (throw e, t.1)
            | hangs ↦ (hangs, t.1)
          ]
          | throw e ↦ (throw e, g)
          | hangs ↦ (hangs, g)
        ]

    -- main(argc, argv); `none` where the behaviour is undefined.
    unfoldable pub main :
        List Bytes → List Bool → Globals os.Kernel → Option (Outcome Bool × Globals os.Kernel)
    unfolding take_limits to_size construct_lobby run_server default_limits
    main args rounds g = elim (take_limits default_limits args) [
      | none ↦ none
      | some l ↦ some (
          run_server rounds
            (construct_lobby os jansson reads (to_size l.lobby_max_fd) (to_size l.ch_max_fd) 0 g))
    ]
