-- ===== src/Tests/Programs.antt =====
-- The server's program at concrete inputs.
use cpp_chat_channel.Base.{◌≡◌, refl, some, List, [], ◌∷◌, true, false, pos, Bytes, codes}
use cpp_chat_channel.Effects.{throw, session_out_of_range, bind_failed}
use cpp_chat_channel.Os.{fd_err, Os}
use cpp_chat_channel.Base.Assoc.{contains}
use cpp_chat_channel.Tasks.{new_session, pushb, pushf}
use cpp_chat_channel.Tracker.{init}
use cpp_chat_channel.Server.{Globals}
use cpp_chat_channel.Server.Base.Life.{set_network, proc}
use cpp_chat_channel.Server.Lobby.{Lobby}
use cpp_chat_channel.Server.Lobby.Upkeep.{construct_lobby}
use cpp_chat_channel.Server.Main.{Limits, default_limits, take_limits, to_size, main}
use cpp_chat_channel.Server.Main.Serving.{Running, has_signal, until_signal}
use cpp_chat_channel.Server.Main.Stops.{end_of, main_lem, main_fails}
use cpp_chat_channel.Server.Main.Arguments.{value_of, last_of}
use cpp_chat_channel.Tests.System.{Machine, machine, started}
use cpp_chat_channel.Tests.Chatting.{notes}

abbrev fresh : Globals Machine
fresh = record { kernel = started; listener = fd_err; name_map = [] }

abbrev words : List Bytes
words = codes "chN=2" ∷ codes "lobbyN=9" ∷ codes "chN= 7" ∷ []

abbrev nine_seven : Limits
nine_seven = record { lobby_max_fd = pos 9; ch_max_fd = pos 7 }

abbrev begun : Running machine
begun = (construct_lobby machine notes 10 9 7 0 fresh).1

-- The signal comes in the second round of three.
main_lem_example :
    (main machine notes 10 words (false ∷ true ∷ false ∷ []) fresh
      ≡ some (end_of machine notes 10 true (proc machine (Lobby Machine) 2 begun)))
    × (value_of (pos 32) (last_of (codes "lobbyN=") words) ≡ some (pos 9))
    × (value_of (pos 32) (last_of (codes "chN=") words) ≡ some (pos 7))
unfolding take_limits construct_lobby to_size has_signal until_signal pushb pushf new_session init
    contains
main_lem_example =
    main_lem machine notes 10 words (false ∷ true ∷ false ∷ []) fresh nine_seven begun refl refl

-- A system in which the port is taken.
abbrev taken : Os
taken = record machine { bind = λ fd k. (false, k) }

main_fails_example :
    main taken notes 10 [] [] fresh
    ≡ some (throw session_out_of_range, (set_network taken (Lobby Machine) fresh).1)
unfolding take_limits set_network
main_fails_example =
    main_fails taken notes 10 [] [] fresh (set_network taken (Lobby Machine) fresh).1 default_limits
      bind_failed refl refl refl
