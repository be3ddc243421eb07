-- ===== src/Server/Base/Life.antt =====
-- The life of a `ServerBase` (src/server/server_base.h, src/server/server_base.cpp): the network, the
-- constructor with its tasks, the loop and the destructor.
use cpp_chat_channel.Base.{
  ℕ, zero, suc, none, some, [], true, false, not, ◌==◌, nat_eq, int_eq, if◌then◌else◌,
}
use cpp_chat_channel.Effects.{
  ok, throw, hangs, M, ◌>>◌, return, modify, try_catch, already_assigned, getaddrinfo_failed,
  socket_failed, bind_failed, listen_failed,
}
use cpp_chat_channel.Os.{fd_err, Os}
use cpp_chat_channel.Tracker.{new_tracker, init, polling, destroy_tracker}
use cpp_chat_channel.Tasks.{Runner, new_session, pushb, run}
use cpp_chat_channel.Server.{Globals, Server, State, on_tracker}
use cpp_chat_channel.Server.Base.{Hooks, Method, each_event}

-- TS_PRE, TS_POLL, TS_LOGIC, TS_COUNT
abbrev pub ts_pre : ℕ
ts_pre = 0

abbrev pub ts_poll : ℕ
ts_poll = 1

abbrev pub ts_logic : ℕ
ts_logic = 2

abbrev pub ts_count : ℕ
ts_count = 3

module _ (os : Os) (D : Type 0) where
  -- The four tasks of the constructor.
  unfoldable pub clear_task : Method os D (Unit {0})
  clear_task (s, g) = (ok tt, (record s { next_deletion = [] }, g))

  unfoldable pub poll_task : Method os D (Unit {0})
  poll_task (s, g) = on_tracker (λ _. polling os s.timeout) (s, g)

  unfoldable pub events_task : Hooks os D → Method os D (Unit {0})
  events_task h (s, g) = elim s.con_tracker [
    | none ↦ (hangs, (s, g))
    | some t ↦ each_event os D h t.events (s, g)
  ]

  unfoldable pub install : Hooks os D → M (Runner (State os.Kernel D)) (Unit {0})
  install h = do
    modify (new_session ts_count)
    pushb ts_pre clear_task
    pushb ts_poll poll_task
    pushb ts_poll (events_task h)
    pushb ts_logic h.resolve_deletion

  -- ServerBase::set_network
  unfoldable pub set_network : M (Globals os.Kernel) (Unit {0})
  set_network g =
      let (found, k1) = os.getaddrinfo g.kernel in
      let (fd, k2) = os.socket k1 in
      let (bound, k3) = os.bind fd k2 in
      let (listening, k4) = os.listen fd k3 in
      if not (g.listener == fd_err)
      then (throw already_assigned, g)
      else if not found
      then (throw getaddrinfo_failed, record g { kernel = k1 })
      else if fd == fd_err
      then (throw socket_failed, record g { kernel = k2; listener = fd })
      else if not bound
      then (throw bind_failed, record g { kernel = k3; listener = fd })
      else if not listening
      then (throw listen_failed, record g { kernel = k4; listener = fd })
      else (ok tt, record g { kernel = k4; listener = fd })

  unfoldable pub network_up : Method os D (Unit {0})
  unfolding set_network
  network_up (s, g) =
      if g.listener == fd_err
      then (let (r, g') = set_network g in (r, (s, g')))
      else (ok tt, (s, g))

  -- The body of the constructor's try block, up to the tasks.
  unfoldable pub open_server : ℕ → Method os D (Unit {0})
  unfolding network_up
  open_server max_fd = do
    network_up
    modify (λ t. (record (t.0) { con_tracker = some (new_tracker max_fd) }, t.1))
    on_tracker (init os)
    modify (λ t. (record (t.0) { comm = some (record { rbuf = [] }) }, t.1))

  -- ServerBase(max_fd, to): a throw is reported and leaves the object as it is, without tasks if it
  -- comes before them.
  unfoldable pub construct :
      Hooks os D → ℕ → ℕ → D → Globals os.Kernel → Runner (State os.Kernel D) × State os.Kernel D
  unfolding open_server install
  construct h max_fd to derived g =
      let start : Server D = record {
        con_tracker = none;
        comm = none;
        timeout = to;
        next_deletion = [];
        is_running = true;
        derived = derived;
      } in
      let (r, s) = open_server max_fd (start, g) in
      elim r [ ok _ ↦ ((install h []).1, s) | throw _ ↦ ([], s) | hangs ↦ ([], s) ]

  -- One round of ServerBase::proc: a throw is reported, and the loop goes on.
  unfoldable pub proc_round : M (Runner (State os.Kernel D) × State os.Kernel D) (Unit {0})
  proc_round = try_catch run (λ e. return tt)

  -- ServerBase::proc for a number of rounds
  unfoldable pub proc : ℕ → M (Runner (State os.Kernel D) × State os.Kernel D) (Unit {0})
  proc zero t = (ok tt, t)
  proc (suc rounds) (tasks, (s, g)) =
      let rest = (proc_round >> proc rounds) (tasks, (s, g)) in
      if s.is_running then rest else (ok tt, (tasks, (s, g)))

  -- ServerBase::stop
  unfoldable pub stop : Method os D (Unit {0})
  stop (s, g) = (ok tt, (record s { is_running = false }, g))

  -- delete con_tracker
  unfoldable pub drop_tracker : State os.Kernel D → State os.Kernel D
  drop_tracker (s, g) = elim s.con_tracker [
    | none ↦ (s, g)
    | some t ↦
        let (t', k) = destroy_tracker os (t, g.kernel) in
        (record s { con_tracker = some t' }, record g { kernel = k })
  ]

  -- ~ServerBase(): the shared listening socket is closed with any server.
  unfoldable pub destroy : State os.Kernel D → State os.Kernel D
  unfolding drop_tracker
  destroy t =
      let (s, g) = drop_tracker t in
      let s' = record s { con_tracker = none; comm = none; next_deletion = [] } in
      if g.listener == fd_err
      then (s', g)
      else (s', record g { kernel = os.close g.listener g.kernel; listener = fd_err })
