-- ===== src/Tests/System.antt =====
-- A system with one epoll instance, which sends four bytes at a time and fails on closed sockets.
use cpp_chat_channel.Base.{
  ℕ, suc, zero, ◌+◌, ◌≤◌, ◌≡◌, ◌≢◌, refl, ap, pos, Option, none, some, List, [], ◌∷◌, ◌++◌, Bool,
  true, false, ◌||◌, arith, ◌==◌, ==_iff, int_eq, if◌then◌else◌, Bytes, length, take, drop,
  take-append-drop, length-take,
}
use cpp_chat_channel.Base.Assoc.{
  contains, contains-nil, add, remove, lookup, insert, contains-add, contains-remove, lookup-insert,
}
use cpp_chat_channel.Os.{Fd, Os, Event, Received, received, would_block}
use cpp_chat_channel.Os.Laws.{RecvLaws, SendLaws, EpollLaws, CloseLaws, ClockLaws}

pub record Machine : Type 0 where
  pub inboxes : List (Fd × Bytes)
  pub outboxes : List (Fd × Bytes)
  pub watched : List Fd
  pub opened : List Fd
  pub next : ℕ
  pub ready : List Event
  pub clock : ℕ

abbrev pub bytes_of : Fd → List (Fd × Bytes) → Bytes
bytes_of fd m = elim (lookup fd m) [ none ↦ [] | some b ↦ b ]

abbrev read_some : Fd → ℕ → Bytes → Machine → Received × Machine
read_some fd n [] k = (would_block, k)
read_some fd n (x ∷ b) k =
    (received (take n (x ∷ b)), record k { inboxes = insert fd (drop n (x ∷ b)) k.inboxes })

abbrev machine_send : Fd → Bytes → Machine → Option ℕ × Machine
machine_send fd b k =
    if contains fd k.opened
    then (
      some (length (take 4 b)),
      record k { outboxes = insert fd (bytes_of fd k.outboxes ++ take 4 b) k.outboxes },
    )
    else (none, k)

abbrev machine_add : Fd → Fd → Machine → Bool × Machine
machine_add efd fd k =
    if contains fd k.watched || fd == efd
    then (false, k)
    else (true, record k { watched = add fd k.watched })

abbrev machine_del : Fd → Fd → Machine → Bool × Machine
machine_del efd fd k =
    if contains fd k.watched then (true, record k { watched = remove fd k.watched }) else (false, k)

abbrev pub machine : Os
machine = record {
  Kernel = Machine;
  recv = λ fd n k. read_some fd n (bytes_of fd k.inboxes) k;
  send = machine_send;
  accept = λ fd k. (pos k.next, record k { next = k.next + 1; opened = add (pos k.next) k.opened });
  close = λ fd k. record k { opened = remove fd k.opened; watched = remove fd k.watched };
  epoll_create = λ k. (pos k.next, record k { next = k.next + 1; watched = [] });
  epoll_add = machine_add;
  epoll_del = machine_del;
  epoll_wait = λ efd n timeout k. (some k.ready, k);
  getaddrinfo = λ k. (true, k);
  socket = λ k. (pos k.next, record k { next = k.next + 1 });
  bind = λ fd k. (true, k);
  listen = λ fd k. (true, k);
  system_ms = λ k. (k.clock, k);
  steady_ns = λ k. (k.clock, k);
}

pub read_takes :
    (fd : Fd) (n : ℕ) (k : Machine) (c b : Bytes)
    → bytes_of fd k.inboxes ≡ c
    → (read_some fd n c k).0 ≡ received b
    → c ≡ b ++ bytes_of fd (read_some fd n c k).1.inboxes
read_takes fd n k [] b e h = cc
read_takes fd n k (x ∷ c) b e h = ground (
  arith,
  lookup-insert fd fd (drop n (x ∷ c)) k.inboxes,
  ==_iff fd fd,
  take-append-drop n (x ∷ c),
)

pub read_fits :
    (fd : Fd) (n : ℕ) (k : Machine) (c b : Bytes)
    → (read_some fd n c k).0 ≡ received b
    → length b ≤ n
read_fits fd n k [] b h = cc
read_fits fd n k (x ∷ c) b h = ground (arith, length-take n (x ∷ c))

pub read_blocks :
    (fd : Fd) (n : ℕ) (k : Machine) (c : Bytes)
    → (read_some fd n c k).0 ≡ would_block
    → (read_some fd n c k).1 ≡ k
read_blocks fd n k [] h = refl
read_blocks fd n k (x ∷ c) h = cc

abbrev pub machine_recv : RecvLaws machine
machine_recv = record {
  inbox = λ k fd. bytes_of fd k.inboxes;
  recv_takes = λ fd n k b h. read_takes fd n k (bytes_of fd k.inboxes) b refl h;
  recv_fits = λ fd n k b h. read_fits fd n k (bytes_of fd k.inboxes) b h;
  recv_blocks =
      λ fd n k h. ap (λ s. bytes_of fd s.inboxes) (read_blocks fd n k (bytes_of fd k.inboxes) h);
}

pub take-length-take : (n : ℕ) (xs : Bytes) → take (length (take n xs)) xs ≡ take n xs
take-length-take zero xs = refl
take-length-take (suc n) [] = refl
take-length-take (suc n) (x ∷ xs) = ap (◌∷◌ x) (take-length-take n xs)

pub send_takes :
    (fd : Fd) (b : Bytes) (k : Machine) (n : ℕ)
    → (machine_send fd b k).0 ≡ some n
    → (n ≤ length b)
      × (bytes_of fd (machine_send fd b k).1.outboxes ≡ bytes_of fd k.outboxes ++ take n b)
send_takes fd b k n h = ground (
  arith,
  length-take 4 b,
  take-length-take 4 b,
  lookup-insert fd fd (bytes_of fd k.outboxes ++ take 4 b) k.outboxes,
  ==_iff fd fd,
)

pub send_fails :
    (fd : Fd) (b : Bytes) (k : Machine)
    → (machine_send fd b k).0 ≡ none
    → bytes_of fd (machine_send fd b k).1.outboxes ≡ bytes_of fd k.outboxes
send_fails fd b k h = ground arith

pub send_elsewhere :
    (fd other : Fd) (b : Bytes) (k : Machine)
    → fd ≢ other
    → bytes_of other (machine_send fd b k).1.outboxes ≡ bytes_of other k.outboxes
send_elsewhere fd other b k h =
    ground (
      arith,
      lookup-insert fd other (bytes_of fd k.outboxes ++ take 4 b) k.outboxes,
      ==_iff fd other,
    )

abbrev pub machine_sends : SendLaws machine
machine_sends = record {
  outbox = λ k fd. bytes_of fd k.outboxes;
  send_takes = send_takes;
  send_fails = send_fails;
  send_elsewhere = send_elsewhere;
}

pub machine_epoll : EpollLaws machine
machine_epoll = record {
  interest = λ k efd fd. contains fd k.watched;
  add_present = λ efd fd k h. ground arith;
  add_self = λ efd k. ground (arith, ==_iff efd efd);
  del_absent = λ efd fd k h. ground arith;
  del_present = λ efd fd k h. ground arith;
  create_empty = λ k fd h. contains-nil fd;
  add_adds = λ efd fd k h. ground (arith, contains-add fd fd k.watched, ==_iff fd fd);
  del_deletes = λ efd fd k h. ground (arith, contains-remove fd fd k.watched, ==_iff fd fd);
  add_fails = λ efd fd other k h. ground arith;
  del_fails = λ efd fd other k h. ground arith;
  add_others = λ efd fd other k h. ground (arith, contains-add fd other k.watched, ==_iff fd other);
  del_others =
      λ efd fd other k h. ground (arith, contains-remove fd other k.watched, ==_iff fd other);
}

pub machine_close : CloseLaws machine machine_epoll
unfolding machine_epoll
machine_close = record {
  is_open = λ k fd. contains fd k.opened;
  close_closes = λ fd k. ground (arith, contains-remove fd fd k.opened, ==_iff fd fd);
  close_others = λ fd other k h. ground (arith, contains-remove fd other k.opened, ==_iff fd other);
  close_interest =
      λ fd efd other k h a. ground (arith, contains-remove fd other k.watched, ==_iff fd other);
  close_leaves = λ fd efd k a. ground (arith, contains-remove fd fd k.watched, ==_iff fd fd);
  add_open = λ efd fd other k. ground arith;
  del_open = λ efd fd other k. ground arith;
  send_open = λ fd other b k. ground arith;
  send_interest = λ fd efd other b k. ground arith;
}

pub interest_lem :
    (k : Machine) (efd fd : Fd) → machine_epoll.interest k efd fd ≡ contains fd k.watched
unfolding machine_epoll
interest_lem k efd fd = refl

pub is_open_lem : (k : Machine) (fd : Fd) → machine_close.is_open k fd ≡ contains fd k.opened
unfolding machine_close
is_open_lem k fd = refl

-- Two connections, 7 and 8, besides the listener 3 and the epoll instance 4; 8 is closed.
abbrev pub started : Machine
started = record {
  inboxes = [];
  outboxes = [];
  watched = pos 3 ∷ pos 7 ∷ pos 8 ∷ [];
  opened = pos 3 ∷ pos 4 ∷ pos 7 ∷ pos 9 ∷ [];
  next = 10;
  ready = [];
  clock = 1000;
}

pub machine_clock : ClockLaws machine machine_epoll
unfolding machine_epoll
machine_clock = record { clock_interest = λ efd other k. refl }
