-- ===== src/Tracker/Init.antt =====
-- A tracker that `init` has opened (src/libs/connection_tracker.cpp).
use cpp_chat_channel.Base.{
  ℕ, ◌≡◌, refl, sym, ◌∙◌, ◌⊎◌, inl, inr, arith, ◌==◌, ne_of_test, int_eq, Bool-cases,
}
use cpp_chat_channel.Base.Assoc.{contains}
use cpp_chat_channel.Effects.{ok, throw, epoll_create_failed, epoll_add_listener_failed}
use cpp_chat_channel.Os.{Fd, fd_err, Os}
use cpp_chat_channel.Os.Laws.{EpollLaws}
use cpp_chat_channel.Tracker.{new_tracker, init}
use cpp_chat_channel.Tracker.Mirror.{IsMirror}

-- If `init` of a new tracker returns, its set mirrors the new instance's interest list; else it
-- throws, since there is no instance or the listener cannot be added to it.
pub init-IsMirror :
    (os : Os) (laws : EpollLaws os) (max_fd : ℕ) (listener : Fd) (k : os.Kernel)
    → ((init os listener (new_tracker max_fd, k)).0 ≡ ok tt)
        × IsMirror os laws listener (init os listener (new_tracker max_fd, k)).1
      ⊎ ((init os listener (new_tracker max_fd, k)).0 ≡ throw epoll_create_failed)
      ⊎ ((init os listener (new_tracker max_fd, k)).0 ≡ throw epoll_add_listener_failed)
unfolding init new_tracker contains
init-IsMirror os laws max_fd listener k = elim (Bool-cases ((os.epoll_create k).0 == fd_err)) [
  | inl e ↦ inr (inl (rw e))
  | inr made ↦
      elim (Bool-cases (os.epoll_add (os.epoll_create k).0 listener (os.epoll_create k).1).0) [
        | inl e ↦ inl (
          rw (made, e),
          rw (made, e)
              (record {
                initialized = ne_of_test (os.epoll_create k).0 fd_err made;
                distinct = tt;
                bounded = omega arith;
                valid = refl;
                no_listener = refl;
                no_self = refl;
                mirrored = λ fd apart.
                    laws.add_others (os.epoll_create k).0 listener fd (os.epoll_create k).1
                      (λ p. apart (sym p))
                    ∙ laws.create_empty k fd (ne_of_test (os.epoll_create k).0 fd_err made);
              }),
        )
        | inr e ↦ inr (inr (rw (made, e)))
      ]
]
