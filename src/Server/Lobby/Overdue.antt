-- ===== src/Server/Lobby/Overdue.antt =====
-- Who is sent away from the lobby (src/server/channel_server.cpp).
use cpp_chat_channel.Base.{
  ℕ, ◌-◌, ◌/◌, ◌≡◌, refl, Option, none, some, List, [], ◌∷◌, Bool, false, not, ◌||◌, arith, ltb,
  ==_iff, nat_eq, int_eq, if◌then◌else◌,
}
use cpp_chat_channel.Base.Assoc.{contains, lookup, contains-add, IsDistinct}
use cpp_chat_channel.Effects.{ok}
use cpp_chat_channel.Os.{Fd, Os}
use cpp_chat_channel.Server.{Globals, Server}
use cpp_chat_channel.Server.Base.Deletion.{kern}
use cpp_chat_channel.Server.Lobby.{Lobby, with_lobby}
use cpp_chat_channel.Server.Lobby.Upkeep.{check_acts, check_lobby}

abbrev fds_of : List (Fd × ℕ) → List Fd
fds_of [] = []
fds_of (act ∷ acts) = act.0 ∷ fds_of acts

-- Whether a connection has been in the lobby for five seconds.
abbrev pub is_overdue : ℕ → Option ℕ → Bool
is_overdue now none = false
is_overdue now (some t) = not (ltb ((now - t) / 1000000) 5000)

-- Its act, if it has not.
abbrev pub recent : ℕ → Option ℕ → Option ℕ
recent now none = none
recent now (some t) = if ltb ((now - t) / 1000000) 5000 then some t else none

lookup-fds_of :
    (fd : Fd) (acts : List (Fd × ℕ)) → contains fd (fds_of acts) ≡ false → lookup fd acts ≡ none
unfolding contains lookup
lookup-fds_of fd [] h = refl
lookup-fds_of fd (act ∷ acts) h = ground (arith, lookup-fds_of fd acts)

check_acts_lem :
    (now : ℕ) (acts : List (Fd × ℕ)) (marked : List Fd) (fd : Fd)
    → IsDistinct (fds_of acts)
    → (lookup fd (check_acts now acts marked).0 ≡ recent now (lookup fd acts))
      × (contains fd (check_acts now acts marked).1
          ≡ (contains fd marked || is_overdue now (lookup fd acts)))
unfolding check_acts lookup
check_acts_lem now [] marked fd d = (refl, ground arith)
check_acts_lem now ((other, t) ∷ acts) marked fd d = ground (
  arith,
  check_acts_lem now acts marked fd d.1,
  contains-add other fd (check_acts now acts marked).1,
  lookup-fds_of fd acts,
  ==_iff other fd,
  d.0,
)

-- `check_lobby` returns. A connection keeps its act, with its time, if it came less than five seconds
-- ago; otherwise the act is dropped and the connection is marked for deletion; nothing else is marked.
pub check_lobby_lem :
    (os : Os) (s : Server (Lobby os.Kernel)) (g : Globals os.Kernel)
    → IsDistinct (fds_of s.derived.last_act)
    → (next : List (Fd × ℕ)) × (marked : List Fd) × (check_lobby os (s, g) ≡ (
      ok tt,
      (
        with_lobby (record s { next_deletion = marked }) (record (s.derived) { last_act = next }),
        kern g (os.steady_ns g.kernel).1,
      ),
    ))
      × ((fd : Fd)
          → lookup fd next ≡ recent (os.steady_ns g.kernel).0 (lookup fd s.derived.last_act))
      × ((fd : Fd)
          → contains fd marked ≡ (
              contains fd s.next_deletion
              || is_overdue (os.steady_ns g.kernel).0 (lookup fd s.derived.last_act)))
unfolding check_lobby
check_lobby_lem os s g d =
    let now = (os.steady_ns g.kernel).0 in
    (
      (check_acts now s.derived.last_act s.next_deletion).0,
      (check_acts now s.derived.last_act s.next_deletion).1,
      refl,
      λ fd. (check_acts_lem now s.derived.last_act s.next_deletion fd d).0,
      λ fd. (check_acts_lem now s.derived.last_act s.next_deletion fd d).1,
    )
