-- ===== src/Server/Lobby/Upkeep.antt =====
-- What `ChannelServer` does once a second, its tasks and its end (src/server/channel_server.cpp).
use cpp_chat_channel.Base.{
  ℕ, ◌+◌, ◌-◌, ◌/◌, ◌%◌, ◌^◌, ◌&&◌, List, [], ◌∷◌, Bool, true, false, ltb, int_eq, if◌then◌else◌,
}
use cpp_chat_channel.Base.Assoc.{add}
use cpp_chat_channel.Effects.{Outcome, ok, throw, hangs, M, ◌>>◌, ◌>>=◌, return}
use cpp_chat_channel.Os.{Fd, Os}
use cpp_chat_channel.Json.{Jansson}
use cpp_chat_channel.Queue.{pop_all}
use cpp_chat_channel.Tasks.{Runner, pushb, pushf, throttle}
use cpp_chat_channel.Server.{Globals, State}
use cpp_chat_channel.Server.Base as Base
use cpp_chat_channel.Server.Base.{Hooks, Method}
use cpp_chat_channel.Server.Base.Life.{ts_pre, ts_logic, construct, destroy}
use cpp_chat_channel.Server.Typed.{on_frame}
use cpp_chat_channel.Server.Chat.{Chat}
use cpp_chat_channel.Server.Channel.{Room}
use cpp_chat_channel.Server.Channel.Worker as Worker
use cpp_chat_channel.Server.Lobby.{Lobby, Channel, with_lobby, with_channels}
use cpp_chat_channel.Server.Lobby.Handlers.{on_accept, on_req, resolve_deletion, consume_report}

-- The loop of check_lobby: who stays, and who is marked. Times are those of the steady clock, in
-- nanoseconds, so `now` is not behind any of them; duration_cast rounds down.
unfoldable pub check_acts : ℕ → List (Fd × ℕ) → List Fd → List (Fd × ℕ) × List Fd
check_acts now [] marked = ([], marked)
check_acts now ((fd, t) ∷ acts) marked =
    let (next, marked') = check_acts now acts marked in
    if ltb ((now - t) / 1000000) 5000 then ((fd, t) ∷ next, marked') else (next, add fd marked')

-- The test of check_channels, on a uint64_t clock.
unfoldable pub is_expired : ℕ → Room → Bool
is_expired now r =
    r.stop_flag && (ltb 0 r.empty_since && ltb 300000 ((now + 2 ^ 64 - r.empty_since) % 2 ^ 64))

module _ (os : Os) where
  -- ChannelServer::check_lobby
  unfoldable pub check_lobby : Method os (Lobby os.Kernel) (Unit {0})
  unfolding check_acts
  check_lobby (s, g) =
      let (now, k) = os.steady_ns g.kernel in
      let (next, marked) = check_acts now s.derived.last_act s.next_deletion in
      let s' = record s { next_deletion = marked } in
      (ok tt, (with_lobby s' (record (s.derived) { last_act = next }), record g { kernel = k }))

  -- delete channel: ~Channel sets stop_flag and joins the worker, ~ServerBase closes the listener.
  unfoldable pub delete_channel : Channel os.Kernel → M (Globals os.Kernel) (Unit {0})
  unfolding Worker.join_worker destroy
  delete_channel channel g =
      let (_, t) = Worker.stop os (channel.1, g) in
      elim (Worker.join_worker channel.1.derived.more) [
        | ok _ ↦ (ok tt, (destroy os (Chat Room) t).1)
        | throw e ↦ (throw e, g)
        | hangs ↦ (hangs, g)
      ]

  unfoldable pub sweep :
      ℕ → List (ℕ × Channel os.Kernel) → M (Globals os.Kernel) (List (ℕ × Channel os.Kernel))
  unfolding is_expired delete_channel
  sweep now [] g = (ok [], g)
  sweep now (entry ∷ entries) g = elim (is_expired now entry.1.1.derived.more) [
    | true ↦ (delete_channel entry.1 >> sweep now entries) g
    | false ↦ (sweep now entries >>= λ left. return (entry ∷ left)) g
  ]

  -- ChannelServer::check_channels
  unfoldable pub check_channels : Method os (Lobby os.Kernel) (Unit {0})
  unfolding sweep
  check_channels (s, g) =
      let (now, k) = os.system_ms g.kernel in
      let (r, g') = sweep now s.derived.channels (record g { kernel = k }) in
      elim r [
        | ok left ↦ (ok tt, (with_channels s left, g'))
        | throw e ↦ (throw e, (s, g'))
        | hangs ↦ (hangs, (s, g'))
      ]

  -- The throttled task.
  unfoldable pub upkeep : Method os (Lobby os.Kernel) (Unit {0})
  unfolding check_lobby check_channels throttle
  upkeep (s, g) =
      let (now, k) = os.system_ms g.kernel in
      let (due, last) = throttle 1000 now s.derived.last_run in
      let s' = with_lobby s (record (s.derived) { last_run = last }) in
      let g' = record g { kernel = k } in
      if due then (check_lobby >> check_channels) (s', g') else (ok tt, (s', g'))

  unfoldable pub delete_channels : List (Channel os.Kernel) → M (Globals os.Kernel) (Unit {0})
  unfolding delete_channel
  delete_channels [] = return tt
  delete_channels (channel ∷ channels) = delete_channel channel >> delete_channels channels

  abbrev pub channels_of : List (ℕ × Channel os.Kernel) → List (Channel os.Kernel)
  channels_of [] = []
  channels_of (entry ∷ m) = entry.1 ∷ channels_of m

  -- ~ChannelServer(), then ~ServerBase()
  unfoldable pub destroy_lobby : M (State os.Kernel (Lobby os.Kernel)) (Unit {0})
  unfolding delete_channels pop_all destroy
  destroy_lobby (s, g) =
      let l = s.derived in
      let (r, g') = delete_channels (channels_of l.channels) g in
      let (dropped, left) = pop_all l.reports in
      elim r [
        | ok _ ↦ (
          ok tt,
          destroy os (Lobby os.Kernel)
              (with_lobby s (record l { channels = []; reports = left }), g'),
        )
        | throw e ↦ (throw e, (s, g'))
        | hangs ↦ (hangs, (s, g'))
      ]

  module _ (jansson : Jansson) (reads : ℕ) where
    abbrev pub lobby_hooks : Hooks os (Lobby os.Kernel)
    lobby_hooks = record {
      resolve_deletion = resolve_deletion os;
      on_frame = on_frame os jansson (Lobby os.Kernel) (on_req os jansson reads);
      on_accept = on_accept os;
      on_disconnect = Base.on_disconnect os (Lobby os.Kernel);
      on_recv =
          Base.on_recv os (Lobby os.Kernel) reads
            (on_frame os jansson (Lobby os.Kernel) (on_req os jansson reads));
    }

    -- The body of ChannelServer(max_fd, ch_max_fd, to).
    unfoldable pub install : M (Runner (State os.Kernel (Lobby os.Kernel))) (Unit {0})
    unfolding consume_report upkeep
    install = do pushb ts_pre (consume_report os jansson reads); pushf ts_logic upkeep

    -- ChannelServer(max_fd, ch_max_fd, to)
    unfoldable pub construct_lobby :
        ℕ
        → ℕ
        → ℕ
        → Globals os.Kernel
        → Outcome (Unit {0})
          × (Runner (State os.Kernel (Lobby os.Kernel)) × State os.Kernel (Lobby os.Kernel))
    unfolding construct install
    construct_lobby max_fd ch_max to g =
        let start : Lobby os.Kernel = record {
          channels = [];
          reports = record { items = []; stopped = false };
          last_act = [];
          ch_max_fd = ch_max;
          last_run = 0;
        } in
        let (tasks, t) = construct os (Lobby os.Kernel) lobby_hooks max_fd to start g in
        let (r, tasks') = install tasks in (r, (tasks', t))
