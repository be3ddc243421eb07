-- ===== src/Tracker.antt =====
-- The class `ConnectionTracker` (src/libs/connection_tracker.h, src/libs/connection_tracker.cpp): the
-- clients of one epoll instance. Its mutex makes each operation one step, so it has no field here;
-- `listener_fd` is a reference, so each operation that reads it takes its present value.
pub mod Mirror
pub mod Add
pub mod Delete
pub mod Init
use cpp_chat_channel.Base.{
  ℕ, Option, none, some, List, [], ◌∷◌, Bool, true, false, leb, ◌==◌, int_eq, if◌then◌else◌, length,
}
use cpp_chat_channel.Base.Assoc.{contains, add, remove}
use cpp_chat_channel.Effects.{
  Outcome, ok, throw, M, raise, epoll_create_failed, epoll_add_listener_failed, polling_failed,
  invalid_client_fd, epoll_not_initialized, listener_as_client, pool_full, epoll_add_failed,
  listener_deleted, epoll_del_failed,
}
use cpp_chat_channel.Os.{Fd, fd_err, Os, Event}

-- MAX_PEV
abbrev pub max_pev : ℕ
max_pev = 1024

pub record Tracker : Type 0 where
  -- compared with a size_t, so its value as one
  pub max_fd : ℕ
  pub efd : Fd
  pub clients : List Fd
  -- the first evcnt entries of events
  pub events : List Event

-- ConnectionTracker(fd, max_fd)
unfoldable pub new_tracker : ℕ → Tracker
new_tracker max_fd = record { max_fd = max_fd; efd = fd_err; clients = []; events = [] }

unfoldable pub get_client_count : Tracker → ℕ
get_client_count t = length t.clients

unfoldable pub is_full : Tracker → Bool
is_full t = leb t.max_fd (length t.clients)

module _ (os : Os) where
  unfoldable pub init : Fd → M (Tracker × os.Kernel) (Unit {0})
  init listener (t, k) =
      let (efd, k') = os.epoll_create k in
      let t' = record t { efd = efd } in
      if efd == fd_err
      then (throw epoll_create_failed, (t', k'))
      else (let (done, k'') = os.epoll_add efd listener k' in
          if done then (ok tt, (t', k'')) else (throw epoll_add_listener_failed, (t', k'')))

  unfoldable pub polling : ℕ → M (Tracker × os.Kernel) (Unit {0})
  polling timeout (t, k) =
      let (events, k') = os.epoll_wait t.efd max_pev timeout k in
      elim events [
        | none ↦ (throw polling_failed, (t, k'))
        | some evs ↦ (ok tt, (record t { events = evs }, k'))
      ]

  unfoldable pub add_client : Fd → Fd → M (Tracker × os.Kernel) (Unit {0})
  add_client listener fd (t, k) =
      if fd == fd_err
      then (throw invalid_client_fd, (t, k))
      else if t.efd == fd_err
      then (throw epoll_not_initialized, (t, k))
      else if fd == listener
      then (throw listener_as_client, (t, k))
      else if leb t.max_fd (length t.clients)
      then (throw pool_full, (t, k))
      else (let (done, k') = os.epoll_add t.efd fd k in
          if done
          then (ok tt, (record t { clients = add fd t.clients }, k'))
          else (throw epoll_add_failed, (t, k')))

  unfoldable pub delete_client : Fd → Fd → M (Tracker × os.Kernel) (Unit {0})
  delete_client listener fd (t, k) =
      if fd == fd_err
      then (throw invalid_client_fd, (t, k))
      else if t.efd == fd_err
      then (throw epoll_not_initialized, (t, k))
      else if fd == listener
      then (throw listener_deleted, (t, k))
      else (let (done, k') = os.epoll_del t.efd fd k in
          if done
          then (
            ok tt,
            (
              record t {
                clients = if contains fd t.clients then remove fd t.clients else t.clients;
              },
              k',
            ),
          )
          else (throw epoll_del_failed, (t, k')))

  -- The clients' descriptors closed, taken from the instance before if there is one.
  unfoldable pub release_clients : Fd → List Fd → os.Kernel → os.Kernel
  release_clients efd [] k = k
  release_clients efd (fd ∷ fds) k =
      let k' = if efd == fd_err then k else (os.epoll_del efd fd k).1 in
      let k'' = if fd == fd_err then k' else os.close fd k' in release_clients efd fds k''

  -- ~ConnectionTracker()
  unfoldable pub destroy_tracker : Tracker × os.Kernel → Tracker × os.Kernel
  destroy_tracker (t, k) =
      let k' = release_clients t.efd t.clients k in
      if t.efd == fd_err
      then (record t { clients = [] }, k')
      else (record t { efd = fd_err; clients = [] }, os.close t.efd k')
