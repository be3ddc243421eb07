-- ===== src/Server/Lobby/Release.antt =====
-- The locks that the calls of the lobby leave behind (src/server/channel_server.cpp).
pub mod Reach
use cpp_chat_channel.Base.{
  ℕ, ◌≡◌, refl, sym, ap, ◌∙◌, subst, Option, none, some, List, [], ◌∷◌, Bool, true, false, arith,
  nat_eq, if◌then◌else◌, Bytes, codes, ◌++◌,
}
use cpp_chat_channel.Base.Assoc.{lookup, IsDistinct}
use cpp_chat_channel.Base.Decimal.{to_string}
use cpp_chat_channel.Effects.{Outcome, ok, throw, hangs, ◌>>◌, return}
use cpp_chat_channel.Os.{Fd, Os}
use cpp_chat_channel.Json.{Jansson}
use cpp_chat_channel.Queue.{pop_all}
use cpp_chat_channel.Tracker.{add_client, delete_client}
use cpp_chat_channel.Server.{Server, State, on_tracker}
use cpp_chat_channel.Server.Base.{Method, reject, close_fd, clear_fd}
use cpp_chat_channel.Server.Channel.{is_join, join_and_logging, leave_and_logging}
use cpp_chat_channel.Server.Channel.Worker.{resolve_pool}
use cpp_chat_channel.Server.Lobby.{
  Lobby, keys, with_lobby, Channel, Report, put_channel, on_channel, get_channel, ping, lock_pool,
  unlock_pool, find_or_create_channel,
}
use cpp_chat_channel.Server.Lobby.Handlers.{
  set_name, note_act, drop_act, on_accept, forget_name, delete_user, resolve_deletion,
  tell_channel_full, move_client, Join, join_request, join_channel, on_req, handle_report,
  each_report, consume_report,
}
use cpp_chat_channel.Tasks.{throttle}
use cpp_chat_channel.Server.Lobby.Upkeep.{check_lobby, check_channels, upkeep}
use cpp_chat_channel.Server.Lobby.Calls.{is_locked, locked, lock_pool_free}
use cpp_chat_channel.Server.Base.Kept.{
  Part, Keeps, Keeps-then, Keeps-try_catch, on_tracker-Keeps, on_comm-Keeps, try_delete-Keeps,
  each_fd-Keeps, reject-Keeps,
}
use cpp_chat_channel.Server.Lobby.Locks.{
  LockedAt, Post, Ends, Ends-bind, Ends-then, Ends-return, on_channel-Ends,
}
use cpp_chat_channel.Server.Lobby.Locks.Calls.{
  lock_after, lock_pool-Ends, unlock_pool-Ends, ping-Ends, join_and_logging-Ends,
  leave_and_logging-Ends,
}
use cpp_chat_channel.Server.Lobby.Locks.Found.{get_channel-Ends, find_or_create_channel-Ends}
use cpp_chat_channel.Server.Lobby.Choice.{AllFree}
use cpp_chat_channel.Server.Lobby.Keys.{surviving-IsDistinct, lookup-surviving}
use cpp_chat_channel.Server.Lobby.Expiry.{surviving, check_channels-surviving}

abbrev pub rooms : {K : Type 0} → Part (Lobby K) (List (ℕ × Channel K))
rooms = record {
  of = λ s. s.derived.channels;
  of_tracker = λ s t. refl;
  of_comm = λ s c. refl;
  of_marks = λ s fds. refl;
}

module _ (os : Os) where
  unchanged :
      {A : Type 0} (o : Option ℕ) (s : Server (Lobby os.Kernel))
      (x : Outcome A × State os.Kernel (Lobby os.Kernel))
      → x.1.0.derived.channels ≡ s.derived.channels
      → LockedAt o s
      → Post (λ _. o) x
  unchanged o s (ok a, t) e h = (
    λ id ch l. h.0 id ch (ap (lookup id) (sym e) ∙ l),
    subst (λ m. IsDistinct (keys m)) (sym e) h.1,
  )
  unchanged o s (throw x, t) e h = tt
  unchanged o s (hangs, t) e h = tt

  -- A call that leaves the channels as they are.
  pub kept-Ends :
      {A : Type 0} (o : Option ℕ) (m : Method os (Lobby os.Kernel) A)
      → Keeps os rooms m
      → Ends os m o (λ _. o)
  kept-Ends o m k s h = unchanged o s.0 (m s) (k s) h

  pub on_accept-Keeps : (fd : Fd) → Keeps os rooms (on_accept os fd)
  unfolding on_accept set_name note_act
  on_accept-Keeps fd =
      let add : Method os (Lobby os.Kernel) (Unit {0}) =
        on_tracker (λ listener. add_client os listener fd) in
      let name = set_name os fd (codes "user_" ++ to_string fd) in
      Keeps-try_catch os rooms (add >> (name >> note_act os fd)) (reject os (Lobby os.Kernel) fd)
        (Keeps-then os rooms add (name >> note_act os fd)
          (on_tracker-Keeps os rooms (λ listener. add_client os listener fd)) (λ t. refl))
        (reject-Keeps os rooms fd)

  delete_user-Keeps : (fd : Fd) → Keeps os rooms (delete_user os fd)
  unfolding delete_user forget_name close_fd clear_fd
  delete_user-Keeps fd (s, g) = ground (arith, try_delete-Keeps os rooms fd (s, g))

  pub resolve_deletion-Keeps : Keeps os rooms (resolve_deletion os)
  unfolding resolve_deletion
  resolve_deletion-Keeps (s, g) =
      ground
        (arith, each_fd-Keeps os rooms (delete_user os) s.next_deletion delete_user-Keeps (s, g))

  tell_channel_full-Keeps : (fd : Fd) → Keeps os rooms (tell_channel_full os fd)
  unfolding tell_channel_full
  tell_channel_full-Keeps fd (s, g) = ground arith

  sweep-Ends : Ends os (check_channels os) none (λ _. none)
  sweep-Ends (s, g) h =
      let now = (os.system_ms g.kernel).0 in
      let (_, swept, _) = check_channels-surviving os s g in
      rw swept (
        λ id ch l. h.0 id ch (lookup-surviving now id ch s.derived.channels h.1 l),
        surviving-IsDistinct now s.derived.channels h.1,
      )

  check_lobby-Keeps : Keeps os rooms (check_lobby os)
  unfolding check_lobby
  check_lobby-Keeps t = refl

  due-Ends :
      (b : Bool)
      → Ends os
          (λ s. if b then (check_lobby os >> check_channels os) s else (ok tt, s))
          none
          (λ _. none)
  due-Ends true =
      Ends-then os none none (λ _. none) (check_lobby os) (check_channels os)
        (kept-Ends none (check_lobby os) check_lobby-Keeps) sweep-Ends
  due-Ends false = Ends-return os tt (λ _. none)

  pub upkeep-Ends : Ends os (upkeep os) none (λ _. none)
  unfolding upkeep
  upkeep-Ends (s, g) h =
      let (now, k) = os.system_ms g.kernel in
      let (due, last) = throttle 1000 now s.derived.last_run in
      due-Ends due (with_lobby s (record (s.derived) { last_run = last }), record g { kernel = k })
        h

module _ (os : Os) (jansson : Jansson) (reads : ℕ) where
  join_channel-Ends :
      (fd : Fd) (req : Join) → Ends os (join_channel os jansson reads fd req) none (λ _. none)
  unfolding join_channel set_name drop_act
  join_channel-Ends fd req =
      let deletes = on_tracker (λ listener. delete_client os listener fd) in
      Ends-then os none none (λ _. none) (set_name os fd req.user_name) _
        (kept-Ends os none (set_name os fd req.user_name) (λ t. refl))
        (Ends-bind os none some (λ _. none) (find_or_create_channel os jansson reads req.channel_id)
          _ (find_or_create_channel-Ends os jansson reads req.channel_id)
          (λ id.
            Ends-then os (some id) (some id) (λ _. none)
              (on_channel os id (join_and_logging os fd req.timestamp false)) _
              (join_and_logging-Ends os (some id) id fd req.timestamp false)
              (Ends-then os (some id) (some id) (λ _. none) deletes _
                (kept-Ends os (some id) deletes
                  (on_tracker-Keeps os rooms (λ listener. delete_client os listener fd)))
                (Ends-then os (some id) (some id) (λ _. none) (drop_act os fd) (unlock_pool os id)
                  (kept-Ends os (some id) (drop_act os fd) (λ t. refl)) (unlock_pool-Ends os id)))))

  pub on_req-Ends :
      (fd : Fd) (target : Bytes) (root : jansson.Json)
      → Ends os (on_req os jansson reads fd target root) none (λ _. none)
  unfolding on_req
  on_req-Ends fd target root = when (is_join target)
    where
      ask :
          (r : Option Join)
          → Ends os
              (elim r [ none ↦ return tt | some req ↦ join_channel os jansson reads fd req ])
              none
              (λ _. none)
      ask none = Ends-return os tt (λ _. none)
      ask (some req) = join_channel-Ends fd req

      when :
          (b : Bool)
          → Ends os
              (if b
                then (elim (join_request os jansson reads root) [
                  | none ↦ return tt
                  | some req ↦ join_channel os jansson reads fd req
                ])
                else return tt)
              none
              (λ _. none)
      when true = ask (join_request os jansson reads root)
      when false = Ends-return os tt (λ _. none)

  handle_report-Ends :
      (req : Report) → Ends os (handle_report os jansson reads req) none (λ _. none)
  unfolding handle_report move_client
  handle_report-Ends req =
      let to = req.1.ch_to in
      Ends-then os none none (λ _. none) (get_channel os jansson reads req.1.ch_from) _
        (get_channel-Ends os jansson reads req.1.ch_from)
        (Ends-then os none none (λ _. none) (get_channel os jansson reads to) _
          (get_channel-Ends os jansson reads to)
          (Ends-then os none (some to) (λ _. none) (lock_pool os to) _ (lock_pool-Ends os to)
            (Ends-bind os (some to) (λ _. some to) (λ _. none) (ping os to) _
              (ping-Ends os (some to) to)
              (λ b.
                Ends-then os (some to) (some to) (λ _. none)
                  (if b then move_client os req else tell_channel_full os req.0) (unlock_pool os to)
                  (answer b) (unlock_pool-Ends os to)))))
    where
      answer :
          (b : Bool)
          → Ends os
              (if b then move_client os req else tell_channel_full os req.0)
              (some req.1.ch_to)
              (λ _. some req.1.ch_to)
      answer true =
          Ends-then os (some req.1.ch_to) (some req.1.ch_to) (λ _. some req.1.ch_to)
            (on_channel os req.1.ch_to (join_and_logging os req.0 req.1.timestamp true))
            (on_channel os req.1.ch_from (leave_and_logging os req.0 req.1.timestamp))
            (join_and_logging-Ends os (some req.1.ch_to) req.1.ch_to req.0 req.1.timestamp true)
            (leave_and_logging-Ends os (some req.1.ch_to) req.1.ch_from req.0 req.1.timestamp)
      answer false =
          kept-Ends os (some req.1.ch_to) (tell_channel_full os req.0)
            (tell_channel_full-Keeps os req.0)

  each_report-Ends :
      (reqs : List Report) → Ends os (each_report os jansson reads reqs) none (λ _. none)
  unfolding each_report
  each_report-Ends [] = Ends-return os tt (λ _. none)
  each_report-Ends (req ∷ reqs) =
      Ends-then os none none (λ _. none) (handle_report os jansson reads req) _
        (handle_report-Ends req) (each_report-Ends reqs)

  pub consume_report-Ends : Ends os (consume_report os jansson reads) none (λ _. none)
  unfolding consume_report
  consume_report-Ends (s, g) h = each_report-Ends (pop_all s.derived.reports).0 _ h
