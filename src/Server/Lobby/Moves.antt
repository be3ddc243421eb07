-- ===== src/Server/Lobby/Moves.antt =====
-- What `ChannelServer::consume_report` does with a report (src/server/channel_server.cpp).
use cpp_chat_channel.Base.{
  ℕ, ◌≡◌, ◌≢◌, refl, ap, ◌∙◌, some, List, Bool, true, false, arith, ◌==◌, ==_iff, nat_eq, int_eq,
  if◌then◌else◌, Bytes, codes,
}
use cpp_chat_channel.Base.Assoc.{lookup, insert, emplace, lookup-insert}
use cpp_chat_channel.Effects.{Outcome, ok, throw, hangs, bind_outcome}
use cpp_chat_channel.Os.{Os}
use cpp_chat_channel.Json.{Jansson}
use cpp_chat_channel.Comm.Buffers.{Communication, send_frame}
use cpp_chat_channel.Server.{Globals, Server, State}
use cpp_chat_channel.Server.Users.{get_user_name}
use cpp_chat_channel.Server.Base.Deletion.{kern}
use cpp_chat_channel.Server.Channel.{
  with_room, system_message, join, leave, join_and_logging, leave_and_logging,
}
use cpp_chat_channel.Server.Lobby.{
  Lobby, Channel, Report, with_channels, put_channel, on_channel, unlock_pool,
}
use cpp_chat_channel.Server.Lobby.Handlers.{
  channel_full, tell_channel_full, move_client, handle_report,
}
use cpp_chat_channel.Server.Lobby.Calls.{
  is_locked, locked, lookup-put_channel, get_channel_there, on_channel_lem, lock_pool_free,
  unlock_pool_lem,
}
use cpp_chat_channel.Server.Lobby.Trial.{has_space, ping_held, unlock_held}
use cpp_chat_channel.Server.Lobby.Joins.{entered}

-- The lobby when the refusal has been sent, or could not be.
abbrev pub after_refusal :
    {K : Type 0}
    → Server (Lobby K)
    → Globals K
    → ℕ
    → Channel K
    → Outcome (Unit {0}) × K
    → Outcome (Unit {0}) × State K (Lobby K)
after_refusal s g id to (ok _, k) = (ok tt, (s, kern g k))
after_refusal s g id to (throw e, k) = (throw e, (put_channel s id (locked to), kern g k))
after_refusal s g id to (hangs, k) = (hangs, (put_channel s id (locked to), kern g k))

module _ {K : Type 0} (req : Report) (name : Bytes) where
  -- The channel that is joined, still locked.
  abbrev pub rejoined : Channel K → Channel K
  rejoined to = (
    to.0,
    with_room to.1 (entered (codes "rejoin") req.0 req.1.timestamp name (locked to).1.derived.more),
  )

  -- The same, unlocked.
  abbrev pub arrived : Channel K → Channel K
  arrived to =
      let r = entered (codes "rejoin") req.0 req.1.timestamp name (locked to).1.derived.more in
      (to.0, with_room to.1 (record r { pool_locked = false }))

  -- The channel that is left.
  abbrev pub parted : Channel K → Channel K
  parted from =
      let r = from.1.derived.more in
      (
        from.0,
        with_room from.1 (record r {
          leave_pool =
              emplace req.0 (system_message (codes "leave") req.1.timestamp name r.channel_id)
                r.leave_pool;
        }),
      )

module _ (os : Os) (jansson : Jansson) (reads : ℕ) (req : Report) (s : Server (Lobby os.Kernel))
    (g : Globals os.Kernel) (from to : Channel os.Kernel)
    (from_there : lookup req.1.ch_from s.derived.channels ≡ some from)
    (to_there : lookup req.1.ch_to s.derived.channels ≡ some to) (free : is_locked to ≡ false) where
  abbrev held : Server (Lobby os.Kernel)
  held = put_channel s req.1.ch_to (locked to)

  -- The channel asked for is locked, and is asked for space.
  handle_report_lem :
      (b : Bool)
      → has_space os to ≡ b
      → handle_report os jansson reads req (s, g)
        ≡ bind_outcome
            (if b then move_client os req (held, g) else tell_channel_full os req.0 (held, g))
            (λ _. unlock_pool os req.1.ch_to)
  unfolding handle_report
  handle_report_lem true h = rw (
    get_channel_there os s g req.1.ch_from from from_there jansson reads,
    get_channel_there os s g req.1.ch_to to to_there jansson reads,
    lock_pool_free os s g req.1.ch_to to to_there free,
    ping_held os s g req.1.ch_to to to_there free,
    h,
    handle_report,
  )
  handle_report_lem false h = rw (
    get_channel_there os s g req.1.ch_from from from_there jansson reads,
    get_channel_there os s g req.1.ch_to to to_there jansson reads,
    lock_pool_free os s g req.1.ch_to to to_there free,
    ping_held os s g req.1.ch_to to to_there free,
    h,
    handle_report,
  )

  -- What the two pools become, the channel asked for still locked.
  module _ (name : Bytes) (apart : req.1.ch_from ≢ req.1.ch_to)
      (known : get_user_name req.0 g ≡ some name) where
    rejoin_lem :
        on_channel os req.1.ch_to (join_and_logging os req.0 req.1.timestamp true) (held, g)
        ≡ (ok tt, (put_channel held req.1.ch_to (rejoined req name to), g))
    unfolding join_and_logging join
    rejoin_lem =
        on_channel_lem os held g req.1.ch_to (locked to)
          (lookup-put_channel s req.1.ch_to (locked to))
          (join_and_logging os req.0 req.1.timestamp true) (ok tt) (rejoined req name to).1 g
          (rw (known, join_and_logging))

    from_still :
        lookup req.1.ch_from (put_channel held req.1.ch_to (rejoined req name to)).derived.channels
        ≡ some from
    from_still = ground (
      arith,
      lookup-insert req.1.ch_to req.1.ch_from (rejoined req name to) held.derived.channels,
      lookup-insert req.1.ch_to req.1.ch_from (locked to) s.derived.channels,
      ==_iff req.1.ch_to req.1.ch_from,
    )

    part_lem :
        on_channel os req.1.ch_from
          (leave_and_logging os req.0 req.1.timestamp)
          (put_channel held req.1.ch_to (rejoined req name to), g)
        ≡ (
          ok tt,
          (
            put_channel
                (put_channel held req.1.ch_to (rejoined req name to))
                req.1.ch_from
                (parted req name from),
            g,
          ),
        )
    unfolding leave_and_logging leave
    part_lem =
        on_channel_lem os (put_channel held req.1.ch_to (rejoined req name to)) g req.1.ch_from from
          from_still (leave_and_logging os req.0 req.1.timestamp) (ok tt) (parted req name from).1 g
          (rw (known, leave_and_logging))

    move_client_lem : move_client os req (held, g) ≡ (
      ok tt,
      (
        put_channel
            (put_channel held req.1.ch_to (rejoined req name to))
            req.1.ch_from
            (parted req name from),
        g,
      ),
    )
    unfolding move_client
    move_client_lem = rw (rejoin_lem, part_lem, move_client)

module _ (os : Os) (jansson : Jansson) (reads : ℕ) (req : Report) (s : Server (Lobby os.Kernel))
    (g : Globals os.Kernel) (from to : Channel os.Kernel)
    (from_there : lookup req.1.ch_from s.derived.channels ≡ some from)
    (to_there : lookup req.1.ch_to s.derived.channels ≡ some to) (free : is_locked to ≡ false) where
  refuse_lem :
      (c : Communication)
      → (r : Outcome (Unit {0}) × os.Kernel)
      → bind_outcome
          (r.0, (record (put_channel s req.1.ch_to (locked to)) { comm = some c }, kern g r.1))
          (λ _. unlock_pool os req.1.ch_to)
        ≡ after_refusal (record s { comm = some c }) g req.1.ch_to to r
  refuse_lem c (ok _, k) =
      unlock_held os (record s { comm = some c }) (kern g k) req.1.ch_to to to_there free
  refuse_lem c (throw e, k) = refl
  refuse_lem c (hangs, k) = refl

  -- A report that asks for a full channel changes no channel: the client is told, and the channel is
  -- unlocked again; if telling it throws, the report throws and the channel stays locked.
  pub handle_report_full :
      (c : Communication)
      → has_space os to ≡ false
      → handle_report os jansson reads req (record s { comm = some c }, g)
        ≡ after_refusal
            (record s { comm = some c })
            g
            req.1.ch_to
            to
            (send_frame os req.0 channel_full g.kernel)
  unfolding tell_channel_full
  handle_report_full c full =
      handle_report_lem os jansson reads req (record s { comm = some c }) g from to from_there
        to_there free false full
      ∙ refuse_lem c (send_frame os req.0 channel_full g.kernel)

  -- A report that asks for another channel with space returns: the client waits in the join pool of
  -- that channel and in the leave pool of its own, unless it waits there already, both channels keep
  -- the rest of their state, the one that is joined is unlocked again, and no other channel changes.
  pub handle_report_moves :
      (name : Bytes)
      → req.1.ch_from ≢ req.1.ch_to
      → get_user_name req.0 g ≡ some name
      → has_space os to ≡ true
      → (m : List (ℕ × Channel os.Kernel)) × (handle_report os jansson reads req (s, g)
          ≡ (ok tt, (with_channels s m, g)))
        × ((id : ℕ)
            → lookup id m ≡ (
                if req.1.ch_to == id
                then some (arrived req name to)
                else if req.1.ch_from == id
                then some (parted req name from)
                else lookup id s.derived.channels))
  handle_report_moves name apart known space =
      let to_id = req.1.ch_to in
      let from_id = req.1.ch_from in
      let held = put_channel s to_id (locked to) in
      let moved =
        put_channel (put_channel held to_id (rejoined req name to)) from_id
          (parted req name from) in
      (
        insert to_id (arrived req name to) moved.derived.channels,
        handle_report_lem os jansson reads req s g from to from_there to_there free true space
            ∙ ap (λ x. bind_outcome x (λ _. unlock_pool os to_id))
                (move_client_lem os jansson reads req s g from to from_there to_there free name
                  apart known)
            ∙ unlock_pool_lem os moved g to_id (rejoined req name to) (
                ground (
                  arith,
                  lookup-insert from_id to_id (parted req name from)
                      (put_channel held to_id (rejoined req name to)).derived.channels,
                  lookup-insert to_id to_id (rejoined req name to) held.derived.channels,
                  ==_iff to_id to_id,
                  ==_iff from_id to_id,
                )),
        λ id. ground (
          arith,
          lookup-insert to_id id (arrived req name to) moved.derived.channels,
          lookup-insert from_id id (parted req name from)
              (put_channel held to_id (rejoined req name to)).derived.channels,
          lookup-insert to_id id (rejoined req name to) held.derived.channels,
          lookup-insert to_id id (locked to) s.derived.channels,
          ==_iff to_id id,
          ==_iff from_id id,
        ),
      )
