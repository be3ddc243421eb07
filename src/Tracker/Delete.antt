-- ===== src/Tracker/Delete.antt =====
-- `delete_client`, on every branch (src/libs/connection_tracker.cpp).
use cpp_chat_channel.Base.{
  ◌≡◌, ◌≢◌, refl, sym, ap, ◌∙◌, ◌⊎◌, inl, inr, List, true, false, arith, ◌==◌, ==_iff, int_eq,
  if◌then◌else◌, Bool-cases, ne_of_test,
}
use cpp_chat_channel.Base.Assoc.{
  contains, remove, remove_absent, contains-remove, length-remove-le, remove-IsDistinct,
}
use cpp_chat_channel.Effects.{
  Exn, Outcome, ok, throw, invalid_client_fd, epoll_not_initialized, listener_deleted,
  epoll_del_failed,
}
use cpp_chat_channel.Os.{Fd, fd_err, Os}
use cpp_chat_channel.Os.Laws.{EpollLaws}
use cpp_chat_channel.Tracker.Mirror.{IsMirror, IsMirror-kernel}
use cpp_chat_channel.Tracker.{Tracker, delete_client}

-- Why `delete_client` throws before it asks the system, in the order of its tests.
pub data Refuses (listener fd : Fd) (t : Tracker) : Exn → Type 0 where
  invalid : fd ≡ fd_err → Refuses listener fd t invalid_client_fd
  uninitialized : fd ≢ fd_err → t.efd ≡ fd_err → Refuses listener fd t epoll_not_initialized
  listening : fd ≢ fd_err → t.efd ≢ fd_err → fd ≡ listener → Refuses listener fd t listener_deleted

-- How `delete_client` ends.
pub data Deletes (os : Os) (listener fd : Fd) (t : Tracker) (k : os.Kernel)
    : Outcome (Unit {0}) × (Tracker × os.Kernel) → Type 0 where
  refused : (e : Exn) → Refuses listener fd t e → Deletes os listener fd t k (throw e, (t, k))
  unregistered :
      (k' : os.Kernel)
      → os.epoll_del t.efd fd k ≡ (false, k')
      → Deletes os listener fd t k (throw epoll_del_failed, (t, k'))
  deleted :
      (k' : os.Kernel)
      → fd ≢ listener
      → os.epoll_del t.efd fd k ≡ (true, k')
      → Deletes os listener fd t k (ok tt, (record t { clients = remove fd t.clients }, k'))

-- Erasing a client that is not there changes nothing, so the test before it decides nothing.
erase_lem : (fd : Fd) (s : List Fd) → (if contains fd s then remove fd s else s) ≡ remove fd s
erase_lem fd s = elim (Bool-cases (contains fd s)) [
  | inl e ↦ rw e
  | inr e ↦ rw (e, remove_absent fd s e)
]

-- `delete_client` throws exactly what its tests say, with nothing changed, and else erases the
-- client if the system had it.
pub delete_client-Deletes :
    (os : Os) (listener fd : Fd) (t : Tracker) (k : os.Kernel)
    → Deletes os listener fd t k (delete_client os listener fd (t, k))
unfolding delete_client
delete_client-Deletes os listener fd t k = elim (Bool-cases (fd == fd_err)) [
  | inl a ↦ rw (a, delete_client) (refused _ (invalid ((==_iff fd fd_err).0 a)))
  | inr a ↦ elim (Bool-cases (t.efd == fd_err)) [
    | inl b ↦
        rw (a, b, delete_client)
          (refused _ (uninitialized (ne_of_test _ _ a) ((==_iff t.efd fd_err).0 b)))
    | inr b ↦ elim (Bool-cases (fd == listener)) [
      | inl c ↦
          rw (a, b, c, delete_client)
            (refused _ (listening (ne_of_test _ _ a) (ne_of_test _ _ b) ((==_iff fd listener).0 c)))
      | inr c ↦ elim (Bool-cases (os.epoll_del t.efd fd k).0) [
        | inl done ↦
            rw (a, b, c, done, delete_client)
              (rw (erase_lem fd t.clients)
                (deleted _ (ne_of_test _ _ c) (ap (λ x. (x, (os.epoll_del t.efd fd k).1)) done)))
        | inr failed ↦
            rw (a, b, c, failed, delete_client)
              (unregistered _ (ap (λ x. (x, (os.epoll_del t.efd fd k).1)) failed))
      ]
    ]
  ]
]

module _ (os : Os) (laws : EpollLaws os) (listener fd : Fd) where
  interest_deleted :
      (t : Tracker) (k k' : os.Kernel)
      → os.epoll_del t.efd fd k ≡ (true, k')
      → (other : Fd) → laws.interest k t.efd other ≡ contains other t.clients
      → laws.interest k' t.efd other ≡ contains other (remove fd t.clients)
  interest_deleted t k k' e other m = elim (Bool-cases (fd == other)) [
    | inl same ↦
        rw (contains-remove fd other t.clients, same, ← (==_iff fd other).0 same)
          (ap (λ s. laws.interest s.1 t.efd fd) (sym e)
            ∙ laws.del_deletes t.efd fd k (ap (λ s. s.0) e))
    | inr differ ↦
        rw (contains-remove fd other t.clients, differ)
          (ap (λ s. laws.interest s.1 t.efd other) (sym e)
            ∙ laws.del_others t.efd fd other k (ne_of_test fd other differ)
            ∙ m)
  ]

  deleted-IsMirror :
      (t : Tracker) (k k' : os.Kernel)
      → os.epoll_del t.efd fd k ≡ (true, k')
      → IsMirror os laws listener (t, k)
      → IsMirror os laws listener (record t { clients = remove fd t.clients }, k')
  deleted-IsMirror t k k' e h = record {
    initialized = h.initialized;
    distinct = remove-IsDistinct fd t.clients h.distinct;
    bounded = omega (arith, length-remove-le fd t.clients, h.bounded);
    valid = ground (arith, contains-remove fd fd_err t.clients, h.valid);
    no_listener = ground (arith, contains-remove fd listener t.clients, h.no_listener);
    no_self = ground (arith, contains-remove fd t.efd t.clients, h.no_self);
    mirrored = λ other apart. interest_deleted t k k' e other (h.mirrored other apart);
  }

  Deletes-IsMirror :
      (t : Tracker) (k : os.Kernel) (r : Outcome (Unit {0}) × (Tracker × os.Kernel))
      → IsMirror os laws listener (t, k)
      → Deletes os listener fd t k r
      → IsMirror os laws listener r.1
  Deletes-IsMirror t k r h (refused e why) = h
  Deletes-IsMirror t k r h (unregistered k' e) =
      IsMirror-kernel os laws listener t k k'
        (λ other.
          ap (λ s. laws.interest s.1 t.efd other) (sym e)
          ∙ laws.del_fails t.efd fd other k (ap (λ s. s.0) e))
        h
  Deletes-IsMirror t k r h (deleted k' apart e) = deleted-IsMirror t k k' e h

  -- Deleting a client keeps the invariant, whether it succeeds or throws.
  pub delete_client-IsMirror :
      (s : Tracker × os.Kernel)
      → IsMirror os laws listener s
      → IsMirror os laws listener (delete_client os listener fd s).1
  delete_client-IsMirror (t, k) h =
      Deletes-IsMirror t k _ h (delete_client-Deletes os listener fd t k)

  -- A client is deleted: the call returns, with the set without it.
  pub delete_member :
      (t : Tracker) (k : os.Kernel)
      → IsMirror os laws listener (t, k)
      → contains fd t.clients ≡ true
      → delete_client os listener fd (t, k)
        ≡ (ok tt, (record t { clients = remove fd t.clients }, (os.epoll_del t.efd fd k).1))
  delete_member t k h member =
      member_case (laws.del_present t.efd fd k (h.mirrored fd apart ∙ member))
        (delete_client-Deletes os listener fd t k)
    where
      apart : fd ≢ listener
      apart e = cc (member, h.no_listener, ap (λ x. contains x t.clients) e)

      member_case :
          {r : Outcome (Unit {0}) × (Tracker × os.Kernel)}
          → (os.epoll_del t.efd fd k).0 ≡ true
          → Deletes os listener fd t k r
          → r ≡ (ok tt, (record t { clients = remove fd t.clients }, (os.epoll_del t.efd fd k).1))
      member_case del (refused e (invalid p)) =
          cc (member, h.valid, ap (λ x. contains x t.clients) p)
      member_case del (refused e (uninitialized p q)) = absurd (h.initialized q)
      member_case del (refused e (listening p q r)) = absurd (apart r)
      member_case del (unregistered k' e) = cc (del, ap (λ s. s.0) e)
      member_case del (deleted k' _ e) =
          ap (λ s. (ok tt, (record t { clients = remove fd t.clients }, s.1))) (sym e)

  -- What is no client is not deleted: the call throws, and the tracker stays as it was.
  pub delete_other :
      (t : Tracker) (k : os.Kernel)
      → IsMirror os laws listener (t, k)
      → contains fd t.clients ≡ false
      → (e : Exn) × (k' : os.Kernel) × (delete_client os listener fd (t, k) ≡ (throw e, (t, k')))
        × ((k' ≡ k) ⊎ ((os.epoll_del t.efd fd k).0 ≡ false) × (k' ≡ (os.epoll_del t.efd fd k).1))
  delete_other t k h absent = other_case (delete_client-Deletes os listener fd t k)
    where
      other_case :
          {r : Outcome (Unit {0}) × (Tracker × os.Kernel)}
          → Deletes os listener fd t k r
          → (e : Exn) × (k' : os.Kernel) × (r ≡ (throw e, (t, k')))
            × ((k' ≡ k)
                ⊎ ((os.epoll_del t.efd fd k).0 ≡ false) × (k' ≡ (os.epoll_del t.efd fd k).1))
      other_case (refused e why) = (e, k, refl, inl refl)
      other_case (unregistered k' e) =
          (epoll_del_failed, k', refl, inr (ap (λ s. s.0) e, ap (λ s. s.1) (sym e)))
      other_case (deleted k' apart e) =
          cc (ap (λ s. s.0) e, laws.del_absent t.efd fd k (h.mirrored fd apart ∙ absent))
