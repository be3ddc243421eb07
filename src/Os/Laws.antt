-- ===== src/Os/Laws.antt =====
-- What the documentation of the system calls promises, over what can be observed.
use cpp_chat_channel.Base.{
  ℕ, ◌≤◌, ◌≡◌, ◌≢◌, Bool, true, false, none, some, ◌++◌, Bytes, length, take,
}
use cpp_chat_channel.Os.{Fd, fd_err, Os, received, would_block}

-- A stream socket hands out the bytes of its peer in order, at most as many as are asked for.
pub record RecvLaws (os : Os) : Type 0 where
  -- the bytes that the peer will have sent and that are not read yet
  pub inbox : os.Kernel → Fd → Bytes
  pub recv_takes :
      (fd : Fd) (n : ℕ) (k : os.Kernel) (b : Bytes)
      → (os.recv fd n k).0 ≡ received b
      → inbox k fd ≡ b ++ inbox (os.recv fd n k).1 fd
  pub recv_fits :
      (fd : Fd) (n : ℕ) (k : os.Kernel) (b : Bytes) → (os.recv fd n k).0 ≡ received b → length b ≤ n
  pub recv_blocks :
      (fd : Fd) (n : ℕ) (k : os.Kernel)
      → (os.recv fd n k).0 ≡ would_block
      → inbox (os.recv fd n k).1 fd ≡ inbox k fd

-- A stream socket sends a first part of what it is given and nothing on other sockets.
pub record SendLaws (os : Os) : Type 0 where
  -- the bytes sent on a socket so far
  pub outbox : os.Kernel → Fd → Bytes
  pub send_takes :
      (fd : Fd) (b : Bytes) (k : os.Kernel) (n : ℕ)
      → (os.send fd b k).0 ≡ some n
      → (n ≤ length b) × (outbox (os.send fd b k).1 fd ≡ outbox k fd ++ take n b)
  pub send_fails :
      (fd : Fd) (b : Bytes) (k : os.Kernel)
      → (os.send fd b k).0 ≡ none
      → outbox (os.send fd b k).1 fd ≡ outbox k fd
  pub send_elsewhere :
      (fd other : Fd) (b : Bytes) (k : os.Kernel)
      → fd ≢ other
      → outbox (os.send fd b k).1 other ≡ outbox k other

-- An epoll instance has a set of descriptors: adding one that is there fails, and so does deleting
-- one that is not there.
pub record EpollLaws (os : Os) : Type 0 where
  -- whether a descriptor is in the interest list of an instance
  pub interest : os.Kernel → Fd → Fd → Bool
  pub add_present :
      (efd fd : Fd) (k : os.Kernel) → interest k efd fd ≡ true → (os.epoll_add efd fd k).0 ≡ false
  -- an instance cannot watch itself
  pub add_self : (efd : Fd) (k : os.Kernel) → (os.epoll_add efd efd k).0 ≡ false
  pub del_absent :
      (efd fd : Fd) (k : os.Kernel) → interest k efd fd ≡ false → (os.epoll_del efd fd k).0 ≡ false
  pub del_present :
      (efd fd : Fd) (k : os.Kernel) → interest k efd fd ≡ true → (os.epoll_del efd fd k).0 ≡ true
  -- a new instance has no descriptors
  pub create_empty :
      (k : os.Kernel) (fd : Fd)
      → (os.epoll_create k).0 ≢ fd_err
      → interest (os.epoll_create k).1 (os.epoll_create k).0 fd ≡ false
  pub add_adds :
      (efd fd : Fd) (k : os.Kernel)
      → (os.epoll_add efd fd k).0 ≡ true
      → interest (os.epoll_add efd fd k).1 efd fd ≡ true
  pub del_deletes :
      (efd fd : Fd) (k : os.Kernel)
      → (os.epoll_del efd fd k).0 ≡ true
      → interest (os.epoll_del efd fd k).1 efd fd ≡ false
  pub add_fails :
      (efd fd other : Fd) (k : os.Kernel)
      → (os.epoll_add efd fd k).0 ≡ false
      → interest (os.epoll_add efd fd k).1 efd other ≡ interest k efd other
  pub del_fails :
      (efd fd other : Fd) (k : os.Kernel)
      → (os.epoll_del efd fd k).0 ≡ false
      → interest (os.epoll_del efd fd k).1 efd other ≡ interest k efd other
  pub add_others :
      (efd fd other : Fd) (k : os.Kernel)
      → fd ≢ other
      → interest (os.epoll_add efd fd k).1 efd other ≡ interest k efd other
  pub del_others :
      (efd fd other : Fd) (k : os.Kernel)
      → fd ≢ other
      → interest (os.epoll_del efd fd k).1 efd other ≡ interest k efd other

-- Closing a descriptor closes it and no other, and nothing else that the program calls closes one.
pub record CloseLaws (os : Os) (epoll : EpollLaws os) : Type 0 where
  pub is_open : os.Kernel → Fd → Bool
  pub close_closes : (fd : Fd) (k : os.Kernel) → is_open (os.close fd k) fd ≡ false
  pub close_others :
      (fd other : Fd) (k : os.Kernel) → fd ≢ other → is_open (os.close fd k) other ≡ is_open k other
  pub close_interest :
      (fd efd other : Fd) (k : os.Kernel)
      → fd ≢ other
      → fd ≢ efd
      → epoll.interest (os.close fd k) efd other ≡ epoll.interest k efd other
  -- a closed descriptor is in no interest list
  pub close_leaves :
      (fd efd : Fd) (k : os.Kernel) → fd ≢ efd → epoll.interest (os.close fd k) efd fd ≡ false
  pub add_open :
      (efd fd other : Fd) (k : os.Kernel)
      → is_open (os.epoll_add efd fd k).1 other ≡ is_open k other
  pub del_open :
      (efd fd other : Fd) (k : os.Kernel)
      → is_open (os.epoll_del efd fd k).1 other ≡ is_open k other
  pub send_open :
      (fd other : Fd) (b : Bytes) (k : os.Kernel)
      → is_open (os.send fd b k).1 other ≡ is_open k other
  pub send_interest :
      (fd efd other : Fd) (b : Bytes) (k : os.Kernel)
      → epoll.interest (os.send fd b k).1 efd other ≡ epoll.interest k efd other

-- Reading the clock registers nothing.
pub record ClockLaws (os : Os) (epoll : EpollLaws os) : Type 0 where
  pub clock_interest :
      (efd other : Fd) (k : os.Kernel)
      → epoll.interest (os.system_ms k).1 efd other ≡ epoll.interest k efd other
