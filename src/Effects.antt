-- ===== src/Effects.antt =====
-- What a C++ call does to its caller: it returns, it throws, or it does not come back, since it waits
-- for ever or the process dies. The exceptions are those that libs/util.h builds
-- (runtime_errorf, coded_runtime_error), one constructor for each text that the code throws.
use cpp_chat_channel.Base.{ℕ, Option, none, some}

pub data Exn : Type 0 where
  recv_failed disconnected invalid_header frame_too_large header_not_sent minus_frame : Exn
  epoll_create_failed epoll_add_listener_failed polling_failed : Exn
  invalid_client_fd epoll_not_initialized listener_as_client pool_full epoll_add_failed : Exn
  listener_deleted epoll_del_failed : Exn
  session_out_of_range : Exn
  already_assigned getaddrinfo_failed socket_failed bind_failed listen_failed : Exn

-- coded_runtime_error::code; `none` for a plain runtime_error.
unfoldable pub error_code : Exn → Option ℕ
error_code disconnected = some 500
error_code pool_full = some 601
error_code _ = none

pub data Outcome {ℓ} (A : Type ℓ) : Type ℓ where
  ok : A → Outcome A
  throw : Exn → Outcome A
  hangs : Outcome A

-- A method over the state `S`. A throw keeps what was written before it.
abbrev pub M : Type 0 → Type 0 → Type 0
M S A = S → Outcome A × S

-- What runs behind an outcome.
abbrev pub bind_outcome : {S A B : Type 0} → Outcome A × S → (A → M S B) → Outcome B × S
bind_outcome (ok a, s) f = f a s
bind_outcome (throw e, s) f = (throw e, s)
bind_outcome (hangs, s) f = (hangs, s)

infixl 5 ◌>>=◌ ◌>>◌
abbrev pub ◌>>=◌ : {S A B : Type 0} → M S A → (A → M S B) → M S B
◌>>=◌ m f s = bind_outcome (m s) f

abbrev pub ◌>>◌ : {S A B : Type 0} → M S A → M S B → M S B
◌>>◌ m k s = bind_outcome (m s) (λ _. k)

abbrev pub return : {S A : Type 0} → A → M S A
return a s = (ok a, s)

abbrev pub raise : {S A : Type 0} → Exn → M S A
raise e s = (throw e, s)

abbrev pub get : {S : Type 0} → M S S
get s = (ok s, s)

abbrev pub modify : {S : Type 0} → (S → S) → M S (Unit {0})
modify f s = (ok tt, f s)

-- try { m } catch (e) { h e }
abbrev pub handle_outcome : {S A : Type 0} → Outcome A × S → (Exn → M S A) → Outcome A × S
handle_outcome (ok a, s) h = (ok a, s)
handle_outcome (throw e, s) h = h e s
handle_outcome (hangs, s) h = (hangs, s)

abbrev pub try_catch : {S A : Type 0} → M S A → (Exn → M S A) → M S A
try_catch m h s = handle_outcome (m s) h

-- A method of a part of the state.
abbrev pub on_first : {S T A : Type 0} → M S A → M (S × T) A
on_first m (s, t) = let (a, s') = m s in (a, (s', t))

abbrev pub on_second : {S T A : Type 0} → M T A → M (S × T) A
on_second m (s, t) = let (a, t') = m t in (a, (s, t'))
