-- ===== src/Server/Channel/Worker.antt =====
-- The worker of a room (src/server/channel.cpp): `Channel::resolve_pool`, its task and its loop.
use cpp_chat_channel.Base.{
  ℕ, zero, suc, none, some, List, [], ◌∷◌, true, not, ◌&&◌, ◌==◌, nat_eq, int_eq, if◌then◌else◌,
  length,
}
use cpp_chat_channel.Effects.{Outcome, ok, hangs, M, ◌>>◌, return, try_catch}
use cpp_chat_channel.Os.{Os}
use cpp_chat_channel.Tasks.{Runner, pushf, run}
use cpp_chat_channel.Server.Base.Life.{ts_logic}
use cpp_chat_channel.Tracker.{add_client, delete_client, get_client_count}
use cpp_chat_channel.Server.{State, on_tracker}
use cpp_chat_channel.Server.Base.{Method}
use cpp_chat_channel.Server.Chat.{Chat, Message}
use cpp_chat_channel.Server.Channel.{Room, with_room, enqueue}

module _ (os : Os) where
  -- One entry of a pool: a throw is logged, and the entry is gone.
  unfoldable pub join_one : Message → Method os (Chat Room) (Unit {0})
  unfolding enqueue
  join_one item =
      try_catch (on_tracker (λ listener. add_client os listener item.0) >> enqueue os item)
        (λ e. return tt)

  unfoldable pub leave_one : Message → Method os (Chat Room) (Unit {0})
  unfolding enqueue
  leave_one item =
      try_catch (on_tracker (λ listener. delete_client os listener item.0) >> enqueue os item)
        (λ e. return tt)

  unfoldable pub each_message :
      (Message → Method os (Chat Room) (Unit {0})) → List Message → Method os (Chat Room) (Unit {0})
  each_message body [] = return tt
  each_message body (item ∷ items) = body item >> each_message body items

  -- The end of `resolve_pool`: a room without clients stops.
  unfoldable pub stop_if_empty : Method os (Chat Room) (Unit {0})
  unfolding get_client_count
  stop_if_empty (s, g) = elim s.con_tracker [
    | none ↦ (hangs, (s, g))
    | some t ↦
        let r = s.derived.more in
        let (now, k) = os.system_ms g.kernel in
        if (get_client_count t == 0) && (length r.join_pool == 0)
        then (
          ok tt,
          (with_room s (record r { stop_flag = true; empty_since = now }), record g { kernel = k }),
        )
        else (ok tt, (s, g))
  ]

  -- Channel::resolve_pool, under pool_mtx
  unfoldable pub resolve_pool : Method os (Chat Room) (Unit {0})
  unfolding join_one leave_one each_message stop_if_empty
  resolve_pool (s, g) =
      let r = s.derived.more in
      let taken = with_room s (record r { join_pool = []; leave_pool = [] }) in
      if r.pool_locked then (hangs, (s, g)) else elim s.con_tracker [
        | none ↦ (ok tt, (s, g))
        | some _ ↦
            (each_message join_one r.join_pool
                >> each_message leave_one r.leave_pool
                >> stop_if_empty)
              (taken, g)
      ]

  -- The body of Channel(srv, id, max_fd), besides the start of the worker thread.
  unfoldable pub install : M (Runner (State os.Kernel (Chat Room))) (Unit {0})
  unfolding resolve_pool
  install = pushf ts_logic resolve_pool

  -- Channel::proc for a number of rounds
  unfoldable pub proc :
      ℕ → M (Runner (State os.Kernel (Chat Room)) × State os.Kernel (Chat Room)) (Unit {0})
  proc zero t = (ok tt, t)
  proc (suc rounds) (tasks, (s, g)) =
      let rest = (try_catch run (λ e. return tt) >> proc rounds) (tasks, (s, g)) in
      if s.derived.more.stop_flag then (ok tt, (tasks, (s, g))) else rest

  -- stop_flag.store(true) in ~Channel()
  unfoldable pub stop : Method os (Chat Room) (Unit {0})
  stop (s, g) = (ok tt, (with_room s (record (s.derived.more) { stop_flag = true }), g))

-- worker.join() in ~Channel(), by the thread of the lobby. A worker that goes on takes pool_mtx in
-- every round, so that it waits for it for ever where the lobby has left it locked; else it ends with
-- the round it is in, and a worker that has stopped has ended.
unfoldable pub join_worker : Room → Outcome (Unit {0})
join_worker r = if r.pool_locked && not r.stop_flag then hangs else ok tt
