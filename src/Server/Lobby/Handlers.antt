-- ===== src/Server/Lobby/Handlers.antt =====
-- The handlers of `ChannelServer` (src/server/channel_server.cpp): new connections, join requests,
-- reports of the rooms, and deletion.
use cpp_chat_channel.Base.{
  ℕ, ◌%◌, ◌^◌, ◌++◌, Option, none, some, List, [], ◌∷◌, true, false, nat_eq, int_eq, if◌then◌else◌,
  Bytes, codes,
}
use cpp_chat_channel.Base.Assoc.{insert, erase_key}
use cpp_chat_channel.Base.Decimal.{to_string}
use cpp_chat_channel.Effects.{ok, ◌>>=◌, ◌>>◌, return, try_catch}
use cpp_chat_channel.Os.{Fd, Os}
use cpp_chat_channel.Json.{Jansson}
use cpp_chat_channel.Queue.{push, pop_all}
use cpp_chat_channel.Comm.Buffers.{send_frame}
use cpp_chat_channel.Tracker.{add_client, delete_client}
use cpp_chat_channel.Server.{on_tracker, on_comm}
use cpp_chat_channel.Server.Users.{set_user_name, remove_user_name}
use cpp_chat_channel.Server.Base.{Method, reject, try_delete, close_fd, clear_fd, each_fd}
use cpp_chat_channel.Server.Channel.{is_join, join_and_logging, leave_and_logging}
use cpp_chat_channel.Server.Lobby.{
  Lobby, Report, with_lobby, on_channel, get_channel, ping, lock_pool, unlock_pool,
  find_or_create_channel,
}

-- The text that a client gets when the channel that it names is full.
abbrev pub channel_full : Bytes
channel_full = codes "{\"type\":\"error\",\"message\":\"The channel is full.\"}"

module _ (os : Os) where
  unfoldable pub set_name : Fd → Bytes → Method os (Lobby os.Kernel) (Unit {0})
  unfolding set_user_name
  set_name fd name (s, g) = (ok tt, (s, set_user_name fd name g))

  -- last_act[client] = std::chrono::steady_clock::now()
  unfoldable pub note_act : Fd → Method os (Lobby os.Kernel) (Unit {0})
  note_act client (s, g) =
      let (now, k) = os.steady_ns g.kernel in
      let l = s.derived in
      (
        ok tt,
        (
          with_lobby s (record l { last_act = insert client now l.last_act }),
          record g { kernel = k },
        ),
      )

  unfoldable pub drop_act : Fd → Method os (Lobby os.Kernel) (Unit {0})
  drop_act fd (s, g) =
      let l = s.derived in
      (ok tt, (with_lobby s (record l { last_act = erase_key fd l.last_act }), g))

  -- ChannelServer::on_accept
  unfoldable pub on_accept : Fd → Method os (Lobby os.Kernel) (Unit {0})
  unfolding set_name note_act reject
  on_accept client =
      try_catch
        (on_tracker (λ listener. add_client os listener client)
          >> (set_name client (codes "user_" ++ to_string client) >> note_act client))
        (reject os (Lobby os.Kernel) client)

  -- ChannelServer::report
  unfoldable pub report : Report → Lobby os.Kernel → Lobby os.Kernel
  report req l = record l { reports = push req l.reports }

  -- ChannelServer::resolve_deletion
  unfoldable pub forget_name : Fd → Method os (Lobby os.Kernel) (Unit {0})
  forget_name fd (s, g) = (ok tt, (s, remove_user_name fd g))

  unfoldable pub delete_user : Fd → Method os (Lobby os.Kernel) (Unit {0})
  unfolding try_delete close_fd clear_fd forget_name
  delete_user fd = do
    deleted ← try_delete os (Lobby os.Kernel) fd
    if deleted
        then (forget_name fd
            >> (close_fd os (Lobby os.Kernel) fd >> clear_fd os (Lobby os.Kernel) fd))
        else return tt

  unfoldable pub resolve_deletion : Method os (Lobby os.Kernel) (Unit {0})
  unfolding delete_user each_fd
  resolve_deletion (s, g) = elim s.con_tracker [
    | none ↦ (ok tt, (s, g))
    | some _ ↦ each_fd os (Lobby os.Kernel) delete_user s.next_deletion (s, g)
  ]

  unfoldable pub tell_channel_full : Fd → Method os (Lobby os.Kernel) (Unit {0})
  tell_channel_full fd =
      on_comm (λ s. let (r, k) = send_frame os fd channel_full s.1 in (r, (s.0, k)))

  unfoldable pub move_client : Report → Method os (Lobby os.Kernel) (Unit {0})
  unfolding on_channel
  move_client req = do
    on_channel os req.1.ch_to (join_and_logging os req.0 req.1.timestamp true)
    on_channel os req.1.ch_from (leave_and_logging os req.0 req.1.timestamp)

-- What a join request asks for.
pub record Join : Type 0 where
  pub channel_id : ℕ
  pub timestamp : ℕ
  pub user_name : Bytes

module _ (os : Os) (jansson : Jansson) (reads : ℕ) where
  -- json_unpack(root, "{s:I,s:I,s:s}", …); the 64 bits stored for `channel_id` are cut to 32.
  unfoldable pub join_request : jansson.Json → Option Join
  join_request root = elim (jansson.integer_at root (codes "channel_id")) [
    | none ↦ none
    | some wide ↦ elim (jansson.integer_at root (codes "timestamp")) [
      | none ↦ none
      | some time ↦ elim (jansson.string_at root (codes "user_name")) [
        | none ↦ none
        | some name ↦
            some (record { channel_id = wide % 2 ^ 32; timestamp = time; user_name = name })
      ]
    ]
  ]

  -- The body of the join command: nothing unlocks the channel if delete_client throws.
  unfoldable pub join_channel : Fd → Join → Method os (Lobby os.Kernel) (Unit {0})
  unfolding set_name drop_act unlock_pool on_channel
  join_channel from req = do
    set_name os from req.user_name
    id ← find_or_create_channel os jansson reads req.channel_id
    on_channel os id (join_and_logging os from req.timestamp false)
    on_tracker (λ listener. delete_client os listener from)
    drop_act os from
    unlock_pool os id

  -- ChannelServer::on_req
  unfoldable pub on_req : Fd → Bytes → jansson.Json → Method os (Lobby os.Kernel) (Unit {0})
  unfolding is_join join_request join_channel
  on_req from target root =
      if is_join target
      then (elim (join_request root) [ none ↦ return tt | some req ↦ join_channel from req ])
      else return tt

  -- One report of consume_report.
  unfoldable pub handle_report : Report → Method os (Lobby os.Kernel) (Unit {0})
  unfolding get_channel lock_pool ping tell_channel_full move_client unlock_pool
  handle_report req = do
    get_channel os jansson reads req.1.ch_from
    get_channel os jansson reads req.1.ch_to
    lock_pool os req.1.ch_to
    room_left ← ping os req.1.ch_to
    if room_left then move_client os req else tell_channel_full os req.0
    unlock_pool os req.1.ch_to

  unfoldable pub each_report : List Report → Method os (Lobby os.Kernel) (Unit {0})
  unfolding handle_report
  each_report [] = return tt
  each_report (req ∷ reqs) = handle_report req >> each_report reqs

  -- ChannelServer::consume_report
  unfoldable pub consume_report : Method os (Lobby os.Kernel) (Unit {0})
  unfolding each_report pop_all
  consume_report (s, g) =
      let (local_q, left) = pop_all s.derived.reports in
      each_report local_q (with_lobby s (record (s.derived) { reports = left }), g)
