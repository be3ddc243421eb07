-- ===== src/Server/Lobby/Running.antt =====
-- The lobby's methods and `is_running` (src/server/channel_server.cpp, src/server/server_base.cpp).
pub mod Handlers
use cpp_chat_channel.Base.{
  ℕ, suc, ◌≡◌, refl, length, Option, none, some, List, [], ◌∷◌, Bool, true, false, arith, nat_eq,
  int_eq, ◌==◌, if◌then◌else◌, Bytes, codes, ◌++◌,
}
use cpp_chat_channel.Base.Decimal.{to_string}
use cpp_chat_channel.Effects.{Outcome, ok, hangs, ◌>>◌, ◌>>=◌, return}
use cpp_chat_channel.Os.{Fd, Os}
use cpp_chat_channel.Json.{Jansson}
use cpp_chat_channel.Queue.{pop_all}
use cpp_chat_channel.Tracker.{Tracker, add_client, delete_client, polling}
use cpp_chat_channel.Server.{State, on_tracker}
use cpp_chat_channel.Server.Base as Base
use cpp_chat_channel.Server.Base.{Method, Hooks, reject, close_fd, clear_fd, each_event}
use cpp_chat_channel.Server.Base.Life.{clear_task, poll_task, events_task}
use cpp_chat_channel.Server.Typed.{on_frame}
use cpp_chat_channel.Server.Chat.{Chat}
use cpp_chat_channel.Server.Channel.{
  Room, is_join, join_and_logging, leave_and_logging, wait_stop_pooling, start_pooling, ping_pool,
}
use cpp_chat_channel.Server.Lobby.{
  Lobby, keys, Report, on_channel, get_channel, ping, lock_pool, unlock_pool, try_channel,
  find_channel, create_channel, find_other, find_or_create_channel, first_free,
}
use cpp_chat_channel.Server.Lobby.Handlers.{
  set_name, note_act, drop_act, on_accept, forget_name, delete_user, resolve_deletion,
  tell_channel_full, move_client, Join, join_request, join_channel, on_req, handle_report,
  each_report, consume_report,
}
use cpp_chat_channel.Server.Lobby.Upkeep.{check_lobby, check_channels, upkeep, lobby_hooks}
use cpp_chat_channel.Server.Base.Kept.{
  Part, Keeps, Keeps-bind, Keeps-then, Keeps-try_catch, Keeps-if, on_tracker-Keeps, mark-Keeps,
  try_delete-Keeps, each_fd-Keeps, reject-Keeps, on_recv-Keeps, Steady, each_event-Keeps,
}

abbrev pub running : {D : Type 0} → Part D Bool
running = record {
  of = λ s. s.is_running;
  of_tracker = λ s t. refl;
  of_comm = λ s c. refl;
  of_marks = λ s fds. refl;
}

module _ (os : Os) where
  abbrev pub Runs : {A : Type 0} → Method os (Lobby os.Kernel) A → Type 0
  Runs m = Keeps os running m

  pub set_name-Runs : (fd : Fd) (name : Bytes) → Runs (set_name os fd name)
  unfolding set_name
  set_name-Runs fd name t = refl

  pub drop_act-Runs : (fd : Fd) → Runs (drop_act os fd)
  unfolding drop_act
  drop_act-Runs fd t = refl

  pub on_accept-Runs : (fd : Fd) → Runs (on_accept os fd)
  unfolding on_accept set_name note_act
  on_accept-Runs fd =
      let add : Method os (Lobby os.Kernel) (Unit {0}) =
        on_tracker (λ listener. add_client os listener fd) in
      let name = set_name os fd (codes "user_" ++ to_string fd) in
      Keeps-try_catch os running (add >> (name >> note_act os fd)) (reject os (Lobby os.Kernel) fd)
        (Keeps-then os running add (name >> note_act os fd)
          (on_tracker-Keeps os running (λ listener. add_client os listener fd)) (λ t. refl))
        (reject-Keeps os running fd)

  delete_user-Runs : (fd : Fd) → Runs (delete_user os fd)
  unfolding delete_user forget_name close_fd clear_fd
  delete_user-Runs fd (s, g) = ground (arith, try_delete-Keeps os running fd (s, g))

  pub resolve_deletion-Runs : Runs (resolve_deletion os)
  unfolding resolve_deletion
  resolve_deletion-Runs (s, g) =
      ground
        (arith, each_fd-Keeps os running (delete_user os) s.next_deletion delete_user-Runs (s, g))

  pub upkeep-Runs : Runs (upkeep os)
  unfolding upkeep check_lobby check_channels
  upkeep-Runs (s, g) = ground arith

  -- A call of a channel's method leaves the lobby's own flag as it is.
  pub on_channel-Runs :
      {A : Type 0} (id : ℕ) (m : Method os (Chat Room) A) → Runs (on_channel os id m)
  unfolding on_channel
  on_channel-Runs id m (s, g) = ground arith

  pub lock_pool-Runs : (id : ℕ) → Runs (lock_pool os id)
  unfolding lock_pool
  lock_pool-Runs id = on_channel-Runs id (wait_stop_pooling os)

  pub unlock_pool-Runs : (id : ℕ) → Runs (unlock_pool os id)
  unfolding unlock_pool
  unlock_pool-Runs id = on_channel-Runs id (start_pooling os)

  pub ping-Runs : (id : ℕ) → Runs (ping os id)
  unfolding ping
  ping-Runs id = on_channel-Runs id (λ s. (ok (ping_pool os s.0), s))

  pub clear_task-Runs : Runs (clear_task os (Lobby os.Kernel))
  unfolding clear_task
  clear_task-Runs t = refl

  try_channel-Runs : (id : ℕ) → Runs (try_channel os id)
  unfolding try_channel
  try_channel-Runs id = Keeps-then os running (lock_pool os id) _ (lock_pool-Runs id) (
      Keeps-bind os running (ping os id) _ (ping-Runs id) (λ b.
        Keeps-if os running b (return true) (unlock_pool os id >> return false) (λ t. refl)
          (Keeps-then os running (unlock_pool os id) (return false) (unlock_pool-Runs id)
            (λ t. refl))))

  find_channel-Runs : (preferred : ℕ) (ids : List ℕ) → Runs (find_channel os preferred ids)
  unfolding find_channel
  find_channel-Runs preferred [] = λ t. refl
  find_channel-Runs preferred (id ∷ ids) =
      let next = find_channel-Runs preferred ids in
      Keeps-if os running (id == preferred) (find_channel os preferred ids) _ next (
        Keeps-bind os running (try_channel os id) _ (try_channel-Runs id) (λ b.
          Keeps-if os running b (return (some id)) (find_channel os preferred ids) (λ t. refl)
            next))

module _ (os : Os) (jansson : Jansson) (reads : ℕ) where
  pub get_channel-Runs : (id : ℕ) → Runs os (get_channel os jansson reads id)
  unfolding get_channel
  get_channel-Runs id (s, g) = ground arith

  create_channel-Runs : Runs os (create_channel os jansson reads)
  unfolding create_channel
  create_channel-Runs (s, g) =
      let new_id = first_free (suc (length s.derived.channels)) s.derived.channels 1 in
      Keeps-then os running (get_channel os jansson reads new_id) _ (get_channel-Runs new_id)
        (Keeps-then os running (lock_pool os new_id) (return new_id) (lock_pool-Runs os new_id)
          (λ u. refl))
        (s, g)

  find_other-Runs : (id : ℕ) → Runs os (find_other os jansson reads id)
  unfolding find_other
  find_other-Runs id (s, g) =
      Keeps-bind os running (find_channel os id (keys s.derived.channels)) _
        (find_channel-Runs os id (keys s.derived.channels)) chosen (s, g)
    where
      chosen :
          (found : Option ℕ)
          → Runs os (elim found [ none ↦ create_channel os jansson reads | some id ↦ return id ])
      chosen none = create_channel-Runs
      chosen (some n) = λ t. refl

  pub find_or_create_channel-Runs : (id : ℕ) → Runs os (find_or_create_channel os jansson reads id)
  unfolding find_or_create_channel
  find_or_create_channel-Runs id =
      Keeps-then os running (get_channel os jansson reads id) _ (get_channel-Runs id) (
        Keeps-bind os running (try_channel os id) _ (try_channel-Runs os id) (λ b.
          Keeps-if os running b (return id) (find_other os jansson reads id) (λ t. refl)
            (find_other-Runs id)))
