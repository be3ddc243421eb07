-- ===== src/Tracker/Mirror.antt =====
-- The tracker's set and the interest list of its epoll instance (src/libs/connection_tracker.cpp).
use cpp_chat_channel.Base.{◌≤◌, ◌≡◌, ◌≢◌, ◌∙◌, false, int_eq, length}
use cpp_chat_channel.Base.Assoc.{contains, IsDistinct}
use cpp_chat_channel.Os.{Fd, fd_err, Os}
use cpp_chat_channel.Os.Laws.{EpollLaws}
use cpp_chat_channel.Tracker.{Tracker}

-- The clients are distinct and no more than `max_fd`, none is FD_ERR, the
-- listener or the instance itself, and those in
-- the interest list besides the listener are exactly the clients.
pub record IsMirror (os : Os) (laws : EpollLaws os) (listener : Fd) (s : Tracker × os.Kernel)
    : Type 0 where
  pub initialized : s.0.efd ≢ fd_err
  pub distinct : IsDistinct s.0.clients
  pub bounded : length s.0.clients ≤ s.0.max_fd
  pub valid : contains fd_err s.0.clients ≡ false
  pub no_listener : contains listener s.0.clients ≡ false
  pub no_self : contains s.0.efd s.0.clients ≡ false
  pub mirrored : (fd : Fd) → fd ≢ listener → laws.interest s.1 s.0.efd fd ≡ contains fd s.0.clients

module _ (os : Os) (laws : EpollLaws os) (listener : Fd) where
  -- A call of the system that fails leaves the interest list.
  pub IsMirror-kernel :
      (t : Tracker) (k k' : os.Kernel)
      → ((other : Fd) → laws.interest k' t.efd other ≡ laws.interest k t.efd other)
      → IsMirror os laws listener (t, k)
      → IsMirror os laws listener (t, k')
  IsMirror-kernel t k k' same h = record {
    initialized = h.initialized;
    distinct = h.distinct;
    bounded = h.bounded;
    valid = h.valid;
    no_listener = h.no_listener;
    no_self = h.no_self;
    mirrored = λ other apart. same other ∙ h.mirrored other apart;
  }
