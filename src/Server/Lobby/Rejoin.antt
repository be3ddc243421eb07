-- ===== src/Server/Lobby/Rejoin.antt =====
-- A request for another channel, from the room that gets it to the pools of both channels
-- (src/server/channel.cpp, src/server/channel_server.cpp).
use cpp_chat_channel.Base.{
  ℕ, ◌≡◌, ◌≢◌, refl, ap, some, List, [], ◌∷◌, ◌++◌, true, false, arith, ◌==◌, ==_iff, nat_eq,
  int_eq, if◌then◌else◌, Bytes,
}
use cpp_chat_channel.Base.Assoc.{lookup, lookup-insert}
use cpp_chat_channel.Effects.{ok, bind_outcome, return}
use cpp_chat_channel.Os.{Fd, Os}
use cpp_chat_channel.Json.{Jansson}
use cpp_chat_channel.Dto.{JoinReqDto}
use cpp_chat_channel.Queue.{push, pop_all}
use cpp_chat_channel.Server.{Globals, Server, State}
use cpp_chat_channel.Server.Users.{get_user_name}
use cpp_chat_channel.Server.Chat.{is_message}
use cpp_chat_channel.Server.Channel as Rooms
use cpp_chat_channel.Server.Channel.{Room, with_room, is_join, join_of}
use cpp_chat_channel.Server.Lobby.{
  Lobby, Channel, Report, with_lobby, with_channels, put_channel, on_channel,
}
use cpp_chat_channel.Server.Lobby.Handlers.{report, handle_report, each_report, consume_report}
use cpp_chat_channel.Server.Lobby.Calls.{is_locked, on_channel_lem}
use cpp_chat_channel.Server.Lobby.Trial.{has_space}
use cpp_chat_channel.Server.Lobby.Moves.{arrived, parted, handle_report_moves}

-- A channel whose room has made a report.
abbrev pub asked : {K : Type 0} → Report → Channel K → Channel K
asked req channel =
    let r = channel.1.derived.more in
    (channel.0, with_room channel.1 (record r { reported = r.reported ++ req ∷ [] }))

-- The lobby with no report waiting, and with one.
abbrev pub idle : {K : Type 0} → Server (Lobby K) → Server (Lobby K)
idle s = with_lobby s (record (s.derived) { reports = record (s.derived.reports) { items = [] } })

abbrev pub told : (os : Os) → Report → Server (Lobby os.Kernel) → Server (Lobby os.Kernel)
told os req s = with_lobby s (report os req s.derived)

module _ (os : Os) (jansson : Jansson) (reads : ℕ) (fd : Fd) (target : Bytes) (root : jansson.Json)
    (dto : JoinReqDto) where
  on_req_reports :
      (channel : Channel os.Kernel) (g : Globals os.Kernel)
      → is_message target ≡ false
      → is_join target ≡ true
      → join_of os jansson root channel.1.derived.more.channel_id ≡ some dto
      → Rooms.on_req os jansson fd target root (channel.1, g)
        ≡ (ok tt, ((asked (fd, dto) channel).1, g))
  unfolding Rooms.on_req
  on_req_reports channel g m j d = rw (m, j, d, Rooms.on_req) refl

  join_of_apart :
      (id : ℕ)
      → join_of os jansson root id ≡ some dto
      → (dto.ch_from ≡ id) × (dto.ch_from ≢ dto.ch_to)
  unfolding join_of
  join_of_apart id d = ground arith

module _ (os : Os) (jansson : Jansson) (reads : ℕ) where
  -- A single report is all that consume_report handles.
  consume_report_one :
      (req : Report) (s : Server (Lobby os.Kernel)) (g : Globals os.Kernel)
      (t : State os.Kernel (Lobby os.Kernel))
      → handle_report os jansson reads req (idle s, g) ≡ (ok tt, t)
      → consume_report os jansson reads (told os req (idle s), g) ≡ (ok tt, t)
  unfolding consume_report report push pop_all each_report
  consume_report_one req s g t h = ap (λ x. bind_outcome x (λ _. return tt)) h

  -- A join request that a room gets for another channel, of a connection with a name, is reported; and
  -- when the lobby, in which no other report waits, has the report, its next round of reports moves the
  -- client: it waits in the join pool of that channel, which is there, unlocked and has space, and in
  -- the leave pool of its own, and no other channel changes.
  pub rejoin_moves :
      (fd : Fd) (target : Bytes) (root : jansson.Json) (dto : JoinReqDto) (name : Bytes)
      (s : Server (Lobby os.Kernel)) (g : Globals os.Kernel) (from to : Channel os.Kernel)
      → lookup from.1.derived.more.channel_id s.derived.channels ≡ some from
      → lookup dto.ch_to s.derived.channels ≡ some to
      → is_locked to ≡ false
      → has_space os to ≡ true
      → get_user_name fd g ≡ some name
      → is_message target ≡ false
      → is_join target ≡ true
      → join_of os jansson root from.1.derived.more.channel_id ≡ some dto
      → (let a = from.1.derived.more.channel_id in
          let after = put_channel (idle s) a (asked (fd, dto) from) in
          (on_channel os a (Rooms.on_req os jansson fd target root) (idle s, g)
            ≡ (ok tt, (after, g)))
          × (m : List (ℕ × Channel os.Kernel)) × (consume_report os jansson reads
                (told os (fd, dto) after, g)
              ≡ (ok tt, (with_channels after m, g)))
          × ((id : ℕ)
              → lookup id m ≡ (
                  if dto.ch_to == id
                  then some (arrived (fd, dto) name to)
                  else if a == id
                  then some (parted (fd, dto) name (asked (fd, dto) from))
                  else lookup id s.derived.channels)))
  rejoin_moves fd target root dto name s g from to here there free space named msg joins asks =
      let a = from.1.derived.more.channel_id in
      let (same, apart) = join_of_apart os jansson reads fd target root dto a asks in
      let asking = asked (fd, dto) from in
      let after = put_channel (idle s) a asking in
      let from_there : lookup dto.ch_from after.derived.channels ≡ some asking = ground (
        arith,
        same,
        lookup-insert a dto.ch_from asking s.derived.channels,
        ==_iff a dto.ch_from,
      ) in
      let to_there : lookup dto.ch_to after.derived.channels ≡ some to = ground (
        arith,
        same,
        apart,
        there,
        lookup-insert a dto.ch_to asking s.derived.channels,
        ==_iff a dto.ch_to,
      ) in
      let (m, moved, places) =
        handle_report_moves os jansson reads (fd, dto) after g asking to from_there to_there free
          name apart named space in
      (
        on_channel_lem os (idle s) g a from here (Rooms.on_req os jansson fd target root) (ok tt)
            asking.1 g (on_req_reports os jansson reads fd target root dto from g msg joins asks),
        m,
        consume_report_one (fd, dto) after g _ moved,
        λ id. ground (
          arith,
          same,
          places id,
          lookup-insert a id asking s.derived.channels,
          ==_iff a id,
          ==_iff dto.ch_from id,
        ),
      )
