-- ===== src/Os.antt =====
-- What the program asks of the operating system: sockets, epoll and clocks. None of it is in the
-- repository, so it is a parameter, and what the documentation of the calls promises is stated as
-- laws over what can be observed of the system.
pub mod Laws
use cpp_chat_channel.Base.{ℕ, ℤ, negsuc, Option, List, Bool, Bytes}

-- fd_t (libs/socket.h)
abbrev pub Fd : Type 0
Fd = ℤ

-- FD_ERR
abbrev pub fd_err : Fd
fd_err = negsuc 0

-- recv(): bytes (none of them at the end of the stream), EAGAIN or EWOULDBLOCK, another error.
pub data Received : Type 0 where
  received : Bytes → Received
  would_block : Received
  recv_error : Received

-- struct epoll_event: data.fd, and the bits EPOLLIN, EPOLLHUP, EPOLLERR of events.
pub record Event : Type 0 where
  pub fd : Fd
  pub readable : Bool
  pub hung_up : Bool
  pub errored : Bool

pub record Os : Type 1 where
  pub Kernel : Type 0
  -- recv(fd, buf, n, MSG_DONTWAIT)
  pub recv : Fd → ℕ → Kernel → Received × Kernel
  -- send(fd, bytes, MSG_NOSIGNAL): `none` is -1
  pub send : Fd → Bytes → Kernel → Option ℕ × Kernel
  -- accept(listener): FD_ERR if it fails
  pub accept : Fd → Kernel → Fd × Kernel
  pub close : Fd → Kernel → Kernel
  -- epoll_create1(0)
  pub epoll_create : Kernel → Fd × Kernel
  -- epoll_ctl(efd, EPOLL_CTL_ADD or EPOLL_CTL_DEL, fd): whether it succeeds
  pub epoll_add : Fd → Fd → Kernel → Bool × Kernel
  pub epoll_del : Fd → Fd → Kernel → Bool × Kernel
  -- epoll_wait(efd, events, n, timeout): `none` is -1
  pub epoll_wait : Fd → ℕ → ℕ → Kernel → Option (List Event) × Kernel
  -- getaddrinfo(NULL, "4800", …), socket(…), bind(fd, …) and listen(fd, 5): whether they succeed
  pub getaddrinfo : Kernel → Bool × Kernel
  pub socket : Kernel → Fd × Kernel
  pub bind : Fd → Kernel → Bool × Kernel
  pub listen : Fd → Kernel → Bool × Kernel
  -- the system clock in milliseconds and the steady clock in nanoseconds
  pub system_ms : Kernel → ℕ × Kernel
  pub steady_ns : Kernel → ℕ × Kernel
