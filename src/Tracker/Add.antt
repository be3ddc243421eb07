-- ===== src/Tracker/Add.antt =====
-- `add_client`, on every branch (src/libs/connection_tracker.cpp).
use cpp_chat_channel.Base.{
  ◌≤◌, ◌<◌, ◌≡◌, ◌≢◌, sym, ap, ◌∙◌, ◌⊎◌, inl, inr, true, false, arith, leb, leb→le, ◌==◌, ==_iff,
  int_eq, length, Bool-cases, ne_of_test,
}
use cpp_chat_channel.Base.Assoc.{contains, add, contains-add, length-add, add-IsDistinct}
use cpp_chat_channel.Effects.{
  Exn, Outcome, ok, throw, invalid_client_fd, epoll_not_initialized, listener_as_client, pool_full,
  epoll_add_failed,
}
use cpp_chat_channel.Os.{Fd, fd_err, Os}
use cpp_chat_channel.Os.Laws.{EpollLaws}
use cpp_chat_channel.Tracker.Mirror.{IsMirror, IsMirror-kernel}
use cpp_chat_channel.Tracker.{Tracker, add_client}

-- Why `add_client` throws before it asks the system, in the order of its tests.
pub data Refuses (listener fd : Fd) (t : Tracker) : Exn → Type 0 where
  invalid : fd ≡ fd_err → Refuses listener fd t invalid_client_fd
  uninitialized : fd ≢ fd_err → t.efd ≡ fd_err → Refuses listener fd t epoll_not_initialized
  listening :
      fd ≢ fd_err → t.efd ≢ fd_err → fd ≡ listener → Refuses listener fd t listener_as_client
  full :
      fd ≢ fd_err
      → t.efd ≢ fd_err
      → fd ≢ listener
      → t.max_fd ≤ length t.clients
      → Refuses listener fd t pool_full

-- How `add_client` ends.
pub data Adds (os : Os) (listener fd : Fd) (t : Tracker) (k : os.Kernel)
    : Outcome (Unit {0}) × (Tracker × os.Kernel) → Type 0 where
  refused : (e : Exn) → Refuses listener fd t e → Adds os listener fd t k (throw e, (t, k))
  unregistered :
      (k' : os.Kernel)
      → os.epoll_add t.efd fd k ≡ (false, k')
      → Adds os listener fd t k (throw epoll_add_failed, (t, k'))
  added :
      (k' : os.Kernel)
      → fd ≢ fd_err
      → fd ≢ listener
      → length t.clients < t.max_fd
      → os.epoll_add t.efd fd k ≡ (true, k')
      → Adds os listener fd t k (ok tt, (record t { clients = add fd t.clients }, k'))

-- `add_client` throws exactly what its tests say, with nothing changed, and else adds the client if
-- the system accepts it.
pub add_client-Adds :
    (os : Os) (listener fd : Fd) (t : Tracker) (k : os.Kernel)
    → Adds os listener fd t k (add_client os listener fd (t, k))
unfolding add_client
add_client-Adds os listener fd t k = elim (Bool-cases (fd == fd_err)) [
  | inl a ↦ rw (a, add_client) (refused _ (invalid ((==_iff fd fd_err).0 a)))
  | inr a ↦ elim (Bool-cases (t.efd == fd_err)) [
    | inl b ↦
        rw (a, b, add_client)
          (refused _ (uninitialized (ne_of_test _ _ a) ((==_iff t.efd fd_err).0 b)))
    | inr b ↦ elim (Bool-cases (fd == listener)) [
      | inl c ↦
          rw (a, b, c, add_client)
            (refused _ (listening (ne_of_test _ _ a) (ne_of_test _ _ b) ((==_iff fd listener).0 c)))
      | inr c ↦ elim (Bool-cases (leb t.max_fd (length t.clients))) [
        | inl d ↦
            rw (a, b, c, d, add_client)
              (refused _
                (full (ne_of_test _ _ a) (ne_of_test _ _ b) (ne_of_test _ _ c) (leb→le _ _ d)))
        | inr d ↦ elim (Bool-cases (os.epoll_add t.efd fd k).0) [
          | inl done ↦
              rw (a, b, c, d, done, add_client)
                (added _ (ne_of_test _ _ a) (ne_of_test _ _ c) (ground arith)
                  (ap (λ x. (x, (os.epoll_add t.efd fd k).1)) done))
          | inr failed ↦
              rw (a, b, c, d, failed, add_client)
                (unregistered _ (ap (λ x. (x, (os.epoll_add t.efd fd k).1)) failed))
        ]
      ]
    ]
  ]
]

module _ (os : Os) (laws : EpollLaws os) (listener fd : Fd) where
  interest_added :
      (t : Tracker) (k k' : os.Kernel)
      → os.epoll_add t.efd fd k ≡ (true, k')
      → (other : Fd) → laws.interest k t.efd other ≡ contains other t.clients
      → laws.interest k' t.efd other ≡ contains other (add fd t.clients)
  interest_added t k k' e other m = elim (Bool-cases (fd == other)) [
    | inl same ↦
        rw (contains-add fd other t.clients, same, ← (==_iff fd other).0 same)
          (ap (λ s. laws.interest s.1 t.efd fd) (sym e)
            ∙ laws.add_adds t.efd fd k (ap (λ s. s.0) e))
    | inr differ ↦
        rw (contains-add fd other t.clients, differ)
          (ap (λ s. laws.interest s.1 t.efd other) (sym e)
            ∙ laws.add_others t.efd fd other k (ne_of_test fd other differ)
            ∙ m)
  ]

  added-IsMirror :
      (t : Tracker) (k k' : os.Kernel)
      → fd ≢ fd_err
      → fd ≢ listener
      → length t.clients < t.max_fd
      → os.epoll_add t.efd fd k ≡ (true, k')
      → IsMirror os laws listener (t, k)
      → IsMirror os laws listener (record t { clients = add fd t.clients }, k')
  added-IsMirror t k k' valid apart room e h = record {
    initialized = h.initialized;
    distinct = add-IsDistinct fd t.clients h.distinct;
    bounded = ground (arith, length-add fd t.clients, h.bounded);
    valid = ground (arith, contains-add fd fd_err t.clients, h.valid, ==_iff fd fd_err);
    no_listener =
        ground (arith, contains-add fd listener t.clients, h.no_listener, ==_iff fd listener);
    no_self = self_case (Bool-cases (fd == t.efd));
    mirrored = λ other apart'. interest_added t k k' e other (h.mirrored other apart');
  }
    where
      self_case :
          ((fd == t.efd) ≡ true) ⊎ ((fd == t.efd) ≡ false)
          → contains t.efd (add fd t.clients) ≡ false
      self_case (inl same) = cc (
        ap (λ s. s.0) e,
        laws.add_self t.efd k,
        ap (λ x. (os.epoll_add t.efd x k).0) ((==_iff fd t.efd).0 same),
      )
      self_case (inr differ) = ground (arith, contains-add fd t.efd t.clients, differ, h.no_self)

  Adds-IsMirror :
      (t : Tracker) (k : os.Kernel) (r : Outcome (Unit {0}) × (Tracker × os.Kernel))
      → IsMirror os laws listener (t, k)
      → Adds os listener fd t k r
      → IsMirror os laws listener r.1
  Adds-IsMirror t k r h (refused e why) = h
  Adds-IsMirror t k r h (unregistered k' e) =
      IsMirror-kernel os laws listener t k k'
        (λ other.
          ap (λ s. laws.interest s.1 t.efd other) (sym e)
          ∙ laws.add_fails t.efd fd other k (ap (λ s. s.0) e))
        h
  Adds-IsMirror t k r h (added k' valid apart room e) = added-IsMirror t k k' valid apart room e h

  -- Adding a client keeps the invariant, whether it succeeds or throws.
  pub add_client-IsMirror :
      (s : Tracker × os.Kernel)
      → IsMirror os laws listener s
      → IsMirror os laws listener (add_client os listener fd s).1
  add_client-IsMirror (t, k) h = Adds-IsMirror t k _ h (add_client-Adds os listener fd t k)
