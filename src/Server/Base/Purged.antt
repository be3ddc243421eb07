-- ===== src/Server/Base/Purged.antt =====
-- What deleted connections leave behind in the tracker, the buffers and the system
-- (src/server/server_base.cpp).
use cpp_chat_channel.Base.{
  ◌≡◌, ◌≢◌, refl, sym, ap, subst, ◌∙◌, ◌⊎◌, inl, inr, none, List, [], ◌∷◌, true, false, not, ◌&&◌,
  arith, ◌==◌, ==_iff, ne_of_test, int_eq, if◌then◌else◌, Bool-cases,
}
use cpp_chat_channel.Base.Assoc.{contains, remove, lookup, contains-remove, lookup-erase_key}
use cpp_chat_channel.Os.{Fd, Os}
use cpp_chat_channel.Os.Laws.{EpollLaws, CloseLaws}
use cpp_chat_channel.Comm.Buffers.{Communication, clear_buffer}
use cpp_chat_channel.Tracker.{Tracker}
use cpp_chat_channel.Tracker.Mirror.{IsMirror, IsMirror-kernel}
use cpp_chat_channel.Tracker.Delete.{delete_member, delete_client-IsMirror}

-- How the tracker, the buffers and the system stand after the connections `fds` are resolved.
pub record Purged (os : Os) (epoll : EpollLaws os) (laws : CloseLaws os epoll) (listener : Fd)
    (fds : List Fd) (t : Tracker) (c : Communication) (k : os.Kernel) (t' : Tracker)
    (c' : Communication) (k' : os.Kernel) : Type 0 where
  -- the clients among them are clients no more
  pub members : (x : Fd) → contains x t'.clients ≡ (contains x t.clients && not (contains x fds))
  -- their sockets are closed, and no other is
  pub opened :
      (x : Fd)
      → laws.is_open k' x ≡ (laws.is_open k x && not (contains x t.clients && contains x fds))
  -- their buffers are gone
  pub buffers :
      (x : Fd)
      → lookup x c'.rbuf
        ≡ (if contains x t.clients && contains x fds then none else lookup x c.rbuf)
  pub mirror : IsMirror os epoll listener (t', k')

module _ (os : Os) (epoll : EpollLaws os) (laws : CloseLaws os epoll) (listener : Fd) where
  pub Purged-nil :
      (t : Tracker) (c : Communication) (k : os.Kernel)
      → IsMirror os epoll listener (t, k)
      → Purged os epoll laws listener [] t c k t c k
  unfolding contains
  Purged-nil t c k m = record {
    members = λ x. ground arith;
    opened = λ x. ground arith;
    buffers = λ x. ground arith;
    mirror = m;
  }

  module _ (fd : Fd) (fds : List Fd) (t t' : Tracker) (c c' : Communication)
      (k k' : os.Kernel) where
    abbrev k_del : os.Kernel
    k_del = (os.epoll_del t.efd fd k).1

    open_after : (x : Fd) → laws.is_open (os.close fd k_del) x ≡ (laws.is_open k x && not (fd == x))
    open_after x = elim (Bool-cases (fd == x)) [
      | inl same ↦ rw same (
          subst (λ y. laws.is_open (os.close fd k_del) y ≡ (laws.is_open k y && false))
            ((==_iff fd x).0 same) (ground (arith, laws.close_closes fd k_del)))
      | inr differ ↦ rw differ (
          laws.close_others fd x k_del (ne_of_test fd x differ)
          ∙ laws.del_open t.efd fd x k
          ∙ ground arith)
    ]

    -- A client in front of the others.
    pub Purged-member :
        contains fd t.clients ≡ true
        → Purged os epoll laws listener fds
            (record t { clients = remove fd t.clients })
            (clear_buffer fd c)
            (os.close fd k_del)
            t'
            c'
            k'
        → Purged os epoll laws listener (fd ∷ fds) t c k t' c' k'
    unfolding contains clear_buffer
    Purged-member m p = record {
      members = λ x. ground (arith, p.members x, contains-remove fd x t.clients);
      opened = λ x.
          ground (arith, p.opened x, open_after x, contains-remove fd x t.clients, m, ==_iff fd x);
      buffers = λ x. ground (
        arith,
        p.buffers x,
        lookup-erase_key fd x c.rbuf,
        contains-remove fd x t.clients,
        m,
        ==_iff fd x,
      );
      mirror = p.mirror;
    }

    -- What is no client, in front of the others.
    pub Purged-other :
        (k1 : os.Kernel)
        → contains fd t.clients ≡ false
        → ((x : Fd) → laws.is_open k1 x ≡ laws.is_open k x)
        → Purged os epoll laws listener fds t c k1 t' c' k'
        → Purged os epoll laws listener (fd ∷ fds) t c k t' c' k'
    unfolding contains
    Purged-other k1 m same p = record {
      members = λ x. ground (arith, p.members x, m, ==_iff fd x);
      opened = λ x. ground (arith, p.opened x, same x, m, ==_iff fd x);
      buffers = λ x. ground (arith, p.buffers x, m, ==_iff fd x);
      mirror = p.mirror;
    }

  -- Closing a deleted client leaves the rest as the tracker has it.
  closed-IsMirror :
      (fd : Fd) (t : Tracker) (k : os.Kernel)
      → contains fd t.clients ≡ false
      → fd ≢ t.efd
      → IsMirror os epoll listener (t, k)
      → IsMirror os epoll listener (t, os.close fd k)
  closed-IsMirror fd t k gone apart m = record {
    initialized = m.initialized;
    distinct = m.distinct;
    bounded = m.bounded;
    valid = m.valid;
    no_listener = m.no_listener;
    no_self = m.no_self;
    mirrored = λ other unlike. elim (Bool-cases (fd == other)) [
      | inl same ↦
          let eq = (==_iff fd other).0 same in
          subst (λ x. epoll.interest (os.close fd k) t.efd x ≡ contains x t.clients) eq
            (laws.close_leaves fd t.efd k apart ∙ sym gone)
      | inr differ ↦
          laws.close_interest fd t.efd other k (ne_of_test fd other differ) apart
          ∙ m.mirrored other unlike
    ];
  }

  pub member-IsMirror :
      (fd : Fd) (t : Tracker) (k : os.Kernel)
      → contains fd t.clients ≡ true
      → IsMirror os epoll listener (t, k)
      → IsMirror os epoll listener
          (record t { clients = remove fd t.clients }, os.close fd (os.epoll_del t.efd fd k).1)
  member-IsMirror fd t k member m =
      closed-IsMirror fd (record t { clients = remove fd t.clients }) (os.epoll_del t.efd fd k).1
        (ground (arith, contains-remove fd fd t.clients, ==_iff fd fd))
        (λ e. cc (member, m.no_self, ap (λ x. contains x t.clients) e))
        (subst (λ r. IsMirror os epoll listener r.1)
          (delete_member os epoll listener fd t k m member)
          (delete_client-IsMirror os epoll listener fd (t, k) m))

  -- A refused or failed deletion closes nothing and leaves the mirror.
  pub other-kernel :
      (fd : Fd) (t : Tracker) (k k1 : os.Kernel)
      → (k1 ≡ k) ⊎ ((os.epoll_del t.efd fd k).0 ≡ false) × (k1 ≡ (os.epoll_del t.efd fd k).1)
      → IsMirror os epoll listener (t, k)
      → IsMirror os epoll listener (t, k1) × ((x : Fd) → laws.is_open k1 x ≡ laws.is_open k x)
  other-kernel fd t k k1 (inl e) m = rw e (m, λ x. refl)
  other-kernel fd t k k1 (inr (failed, e)) m = rw e (
    IsMirror-kernel os epoll listener t k (os.epoll_del t.efd fd k).1
        (λ x. epoll.del_fails t.efd fd x k failed) m,
    λ x. laws.del_open t.efd fd x k,
  )
