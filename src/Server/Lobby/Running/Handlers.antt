-- ===== src/Server/Lobby/Running/Handlers.antt =====
-- The lobby's handlers and `is_running` (src/server/channel_server.cpp).
use cpp_chat_channel.Base.{
  ℕ, ◌≡◌, refl, Option, none, some, List, [], ◌∷◌, true, false, arith, nat_eq, int_eq,
  if◌then◌else◌, Bytes,
}
use cpp_chat_channel.Effects.{Outcome, hangs, ◌>>◌, ◌>>=◌, return}
use cpp_chat_channel.Os.{Fd, Os}
use cpp_chat_channel.Json.{Jansson}
use cpp_chat_channel.Queue.{pop_all}
use cpp_chat_channel.Tracker.{Tracker, delete_client, polling}
use cpp_chat_channel.Server.{State, on_tracker}
use cpp_chat_channel.Server.Base as Base
use cpp_chat_channel.Server.Base.{Method, Hooks, reject, close_fd, clear_fd, each_event}
use cpp_chat_channel.Server.Base.Life.{poll_task, events_task}
use cpp_chat_channel.Server.Typed.{on_frame}
use cpp_chat_channel.Server.Channel.{is_join, join_and_logging, leave_and_logging}
use cpp_chat_channel.Server.Lobby.{
  Lobby, Report, on_channel, get_channel, ping, lock_pool, unlock_pool, find_or_create_channel,
}
use cpp_chat_channel.Server.Lobby.Handlers.{
  set_name, drop_act, tell_channel_full, move_client, Join, join_request, join_channel, on_req,
  handle_report, each_report, consume_report,
}
use cpp_chat_channel.Server.Lobby.Upkeep.{lobby_hooks}
use cpp_chat_channel.Server.Base.Kept.{
  Keeps-bind, Keeps-then, Keeps-if, on_tracker-Keeps, mark-Keeps, on_recv-Keeps, Steady,
  each_event-Keeps,
}
use cpp_chat_channel.Server.Lobby.Running.{
  running, Runs, resolve_deletion-Runs, drop_act-Runs, find_or_create_channel-Runs,
  get_channel-Runs, lock_pool-Runs, on_accept-Runs, on_channel-Runs, ping-Runs, set_name-Runs,
  unlock_pool-Runs,
}

module _ (os : Os) (jansson : Jansson) (reads : ℕ) where
  -- What follows the choice of the channel in a join request.
  abbrev enter : Fd → Join → ℕ → Method os (Lobby os.Kernel) (Unit {0})
  enter fd req id =
      on_channel os id (join_and_logging os fd req.timestamp false)
      >> (on_tracker (λ listener. delete_client os listener fd)
          >> (drop_act os fd >> unlock_pool os id))

  enter-Runs : (fd : Fd) (req : Join) (id : ℕ) → Runs os (enter fd req id)
  enter-Runs fd req id =
      let joins = join_and_logging os fd req.timestamp false in
      let deletes : Method os (Lobby os.Kernel) (Unit {0}) =
        on_tracker (λ listener. delete_client os listener fd) in
      let ends = drop_act os fd >> unlock_pool os id in
      Keeps-then os running (on_channel os id joins) (deletes >> ends) (on_channel-Runs os id joins)
        (Keeps-then os running deletes ends
          (on_tracker-Keeps os running (λ listener. delete_client os listener fd))
          (Keeps-then os running (drop_act os fd) (unlock_pool os id) (drop_act-Runs os fd)
            (unlock_pool-Runs os id)))

  join_channel-Runs : (fd : Fd) (req : Join) → Runs os (join_channel os jansson reads fd req)
  unfolding join_channel
  join_channel-Runs fd req =
      let finds = find_or_create_channel os jansson reads req.channel_id in
      Keeps-then os running (set_name os fd req.user_name) (finds >>= enter fd req)
        (set_name-Runs os fd req.user_name)
        (Keeps-bind os running finds (enter fd req)
          (find_or_create_channel-Runs os jansson reads req.channel_id) (enter-Runs fd req))

  on_req-Runs :
      (fd : Fd) (target : Bytes) (root : jansson.Json)
      → Runs os (on_req os jansson reads fd target root)
  unfolding on_req
  on_req-Runs fd target root =
      Keeps-if os running (is_join target) _ (return tt) (ask (join_request os jansson reads root))
        (λ t. refl)
    where
      ask :
          (r : Option Join)
          → Runs os (elim r [ none ↦ return tt | some req ↦ join_channel os jansson reads fd req ])
      ask none = λ t. refl
      ask (some req) = join_channel-Runs fd req

  tell_channel_full-Runs : (fd : Fd) → Runs os (tell_channel_full os fd)
  unfolding tell_channel_full
  tell_channel_full-Runs fd (s, g) = ground arith

  move_client-Runs : (req : Report) → Runs os (move_client os req)
  unfolding move_client
  move_client-Runs req =
      let joins = join_and_logging os req.0 req.1.timestamp true in
      let leaves = leave_and_logging os req.0 req.1.timestamp in
      Keeps-then os running (on_channel os req.1.ch_to joins) (on_channel os req.1.ch_from leaves)
        (on_channel-Runs os req.1.ch_to joins) (on_channel-Runs os req.1.ch_from leaves)

  handle_report-Runs : (req : Report) → Runs os (handle_report os jansson reads req)
  unfolding handle_report
  handle_report-Runs req =
      let to = req.1.ch_to in
      Keeps-then os running (get_channel os jansson reads req.1.ch_from) _
        (get_channel-Runs os jansson reads req.1.ch_from)
        (Keeps-then os running (get_channel os jansson reads to) _
          (get_channel-Runs os jansson reads to)
          (Keeps-then os running (lock_pool os to) _ (lock_pool-Runs os to) (
            Keeps-bind os running (ping os to) _ (ping-Runs os to) (λ b.
              Keeps-then os running (if b then move_client os req else tell_channel_full os req.0)
                (unlock_pool os to)
                (Keeps-if os running b (move_client os req) (tell_channel_full os req.0)
                  (move_client-Runs req) (tell_channel_full-Runs req.0))
                (unlock_pool-Runs os to)))))

  each_report-Runs : (reqs : List Report) → Runs os (each_report os jansson reads reqs)
  unfolding each_report
  each_report-Runs [] = λ t. refl
  each_report-Runs (req ∷ reqs) =
      Keeps-then os running (handle_report os jansson reads req) _ (handle_report-Runs req)
        (each_report-Runs reqs)

  pub consume_report-Runs : Runs os (consume_report os jansson reads)
  unfolding consume_report
  consume_report-Runs (s, g) = each_report-Runs (pop_all s.derived.reports).0 _

  on_disconnect-Runs : (fd : Fd) → Runs os (Base.on_disconnect os (Lobby os.Kernel) fd)
  unfolding Base.on_disconnect
  on_disconnect-Runs fd = mark-Keeps os running fd

  on_frame-Runs :
      (fd : Fd) (frame : Bytes)
      → Runs os (on_frame os jansson (Lobby os.Kernel) (on_req os jansson reads) fd frame)
  unfolding on_frame
  on_frame-Runs fd frame s = grind (arith, on_req-Runs)

  lobby_hooks-Steady : Steady os running (lobby_hooks os jansson reads)
  lobby_hooks-Steady =
      let frames = on_frame os jansson (Lobby os.Kernel) (on_req os jansson reads) in
      (
        resolve_deletion-Runs os,
        on_accept-Runs os,
        on_disconnect-Runs,
        λ fd. on_recv-Keeps os running reads frames fd (on_frame-Runs fd),
      )

  pub poll_task-Runs : Runs os (poll_task os (Lobby os.Kernel))
  unfolding poll_task
  poll_task-Runs (s, g) = on_tracker-Keeps os running (λ _. polling os s.timeout) (s, g)

  pub events_task-Runs : Runs os (events_task os (Lobby os.Kernel) (lobby_hooks os jansson reads))
  unfolding events_task
  events_task-Runs (s, g) = go s.con_tracker
    where
      go :
          (o : Option Tracker)
          → (let r : Outcome (Unit {0}) × State os.Kernel (Lobby os.Kernel) = elim o [
            | none ↦ (hangs, (s, g))
            | some t ↦
                each_event os (Lobby os.Kernel) (lobby_hooks os jansson reads) t.events (s, g)
          ] in
              r.1.0.is_running ≡ s.is_running)
      go none = refl
      go (some t) =
          each_event-Keeps os running (lobby_hooks os jansson reads) t.events lobby_hooks-Steady
            (s, g)
