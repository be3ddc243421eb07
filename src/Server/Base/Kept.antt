-- ===== src/Server/Base/Kept.antt =====
-- Methods of a server (src/server/server_base.cpp) that leave a part of the object as it is.
use cpp_chat_channel.Base.{
  ℕ, ◌≡◌, refl, ◌∙◌, Option, none, some, List, [], ◌∷◌, Bool, true, false, arith, ◌==◌, nat_eq,
  int_eq, if◌then◌else◌, Bytes,
}
use cpp_chat_channel.Effects.{
  Exn, Outcome, ok, throw, hangs, M, ◌>>=◌, ◌>>◌, bind_outcome, handle_outcome, return, try_catch,
  error_code,
}
use cpp_chat_channel.Os.{Fd, Os, Event}
use cpp_chat_channel.Tracker.{Tracker, delete_client}
use cpp_chat_channel.Comm.Buffers.{Communication, recv_frame, clear_buffer}
use cpp_chat_channel.Server.{Server, State, on_tracker, on_comm}
use cpp_chat_channel.Server.Base.{
  Method, Hooks, mark, clear_fd, try_delete, each_fd, tell_full, reject, each_frame, on_recv,
  handle_events, each_event,
}

-- A part of a server without its tracker, its buffers and its list of deletions.
pub record Part (D X : Type 0) : Type 0 where
  pub of : Server D → X
  pub of_tracker : (s : Server D) (t : Option Tracker) → of (record s { con_tracker = t }) ≡ of s
  pub of_comm : (s : Server D) (c : Option Communication) → of (record s { comm = c }) ≡ of s
  pub of_marks : (s : Server D) (fds : List Fd) → of (record s { next_deletion = fds }) ≡ of s

module _ (os : Os) {D X : Type 0} (part : Part D X) where
  abbrev pub Keeps : {A : Type 0} → Method os D A → Type 0
  Keeps m = (t : State os.Kernel D) → part.of (m t).1.0 ≡ part.of t.0

  pub bind_kept :
      {A B : Type 0} (x : Outcome A × State os.Kernel D) (f : A → Method os D B)
      → ((a : A) → Keeps (f a))
      → part.of (bind_outcome x f).1.0 ≡ part.of x.1.0
  bind_kept (ok a, t) f k = k a t
  bind_kept (throw e, t) f k = refl
  bind_kept (hangs, t) f k = refl

  pub Keeps-bind :
      {A B : Type 0} (m : Method os D A) (f : A → Method os D B)
      → Keeps m
      → ((a : A) → Keeps (f a))
      → Keeps (m >>= f)
  Keeps-bind m f p k t = bind_kept (m t) f k ∙ p t

  pub Keeps-then :
      {A B : Type 0} (m : Method os D A) (k : Method os D B) → Keeps m → Keeps k → Keeps (m >> k)
  Keeps-then m k p q t = bind_kept (m t) (λ _. k) (λ _. q) ∙ p t

  handle_kept :
      {A : Type 0} (x : Outcome A × State os.Kernel D) (h : Exn → Method os D A)
      → ((e : Exn) → Keeps (h e))
      → part.of (handle_outcome x h).1.0 ≡ part.of x.1.0
  handle_kept (ok a, t) h k = refl
  handle_kept (throw e, t) h k = k e t
  handle_kept (hangs, t) h k = refl

  pub Keeps-try_catch :
      {A : Type 0} (m : Method os D A) (h : Exn → Method os D A)
      → Keeps m
      → ((e : Exn) → Keeps (h e))
      → Keeps (try_catch m h)
  Keeps-try_catch m h p k t = handle_kept (m t) h k ∙ p t

  pub Keeps-if :
      {A : Type 0} (b : Bool) (m k : Method os D A) → Keeps m → Keeps k → Keeps (if b then m else k)
  Keeps-if true m k p q = p
  Keeps-if false m k p q = q

  pub on_tracker-Keeps : {A : Type 0} (m : Fd → M (Tracker × os.Kernel) A) → Keeps (on_tracker m)
  on_tracker-Keeps m (s, g) = grind (arith, part.of_tracker s)

  pub on_comm-Keeps : {A : Type 0} (m : M (Communication × os.Kernel) A) → Keeps (on_comm m)
  on_comm-Keeps m (s, g) = grind (arith, part.of_comm s)

  pub mark-Keeps : (fd : Fd) → Keeps (mark os D fd)
  unfolding mark
  mark-Keeps fd (s, g) = part.of_marks s _

  pub try_delete-Keeps : (fd : Fd) → Keeps (try_delete os D fd)
  unfolding try_delete
  try_delete-Keeps fd =
      let deletes : Method os D (Unit {0}) =
        on_tracker (λ listener. delete_client os listener fd) in
      Keeps-try_catch (deletes >> return true) (λ e. return false)
        (Keeps-then deletes (return true)
          (on_tracker-Keeps (λ listener. delete_client os listener fd)) (λ t. refl))
        (λ e t. refl)

  pub clear_fd-Keeps : (fd : Fd) → Keeps (clear_fd os D fd)
  unfolding clear_fd
  clear_fd-Keeps fd = on_comm-Keeps (λ s. (ok tt, (clear_buffer fd s.0, s.1)))

  pub each_fd-Keeps :
      (body : Fd → Method os D (Unit {0})) (fds : List Fd)
      → ((fd : Fd) → Keeps (body fd))
      → Keeps (each_fd os D body fds)
  unfolding each_fd
  each_fd-Keeps body [] k = λ t. refl
  each_fd-Keeps body (fd ∷ fds) k =
      Keeps-then (body fd) (each_fd os D body fds) (k fd) (each_fd-Keeps body fds k)

  pub tell_full-Keeps : (fd : Fd) → Keeps (tell_full os D fd)
  unfolding tell_full
  tell_full-Keeps fd (s, g) = grind (arith, part.of_comm s)

  pub reject-Keeps : (fd : Fd) (e : Exn) → Keeps (reject os D fd e)
  unfolding reject
  reject-Keeps fd e =
      let full : Bool = elim (error_code e) [ none ↦ false | some code ↦ code == 601 ] in
      Keeps-then (if full then tell_full os D fd else return tt) (mark os D fd)
        (Keeps-if full (tell_full os D fd) (return tt) (tell_full-Keeps fd) (λ t. refl))
        (mark-Keeps fd)

  pub each_frame-Keeps :
      (body : Bytes → Method os D (Unit {0})) (frames : List Bytes)
      → ((frame : Bytes) → Keeps (body frame))
      → Keeps (each_frame os D body frames)
  unfolding each_frame
  each_frame-Keeps body [] k = λ t. refl
  each_frame-Keeps body (frame ∷ frames) k =
      Keeps-then (body frame) (each_frame os D body frames) (k frame)
        (each_frame-Keeps body frames k)

  pub on_recv-Keeps :
      (reads : ℕ) (on_frame : Fd → Bytes → Method os D (Unit {0})) (fd : Fd)
      → ((frame : Bytes) → Keeps (on_frame fd frame))
      → Keeps (on_recv os D reads on_frame fd)
  unfolding on_recv
  on_recv-Keeps reads on_frame fd k (s, g) =
      let receive : Method os D (List Bytes) = on_comm (recv_frame os reads fd) in
      let serve : List Bytes → Method os D (Unit {0}) = each_frame os D (on_frame fd) in
      let kept =
        Keeps-try_catch (receive >>= serve) (λ e. mark os D fd)
          (Keeps-bind receive serve (on_comm-Keeps (recv_frame os reads fd))
            (λ frames. each_frame-Keeps (on_frame fd) frames k))
          (λ e. mark-Keeps fd) (s, g) in
      ground (arith, kept)

  -- Hooks that keep the part.
  abbrev pub Steady : Hooks os D → Type 0
  Steady h =
      Keeps h.resolve_deletion
      × ((fd : Fd) → Keeps (h.on_accept fd))
      × ((fd : Fd) → Keeps (h.on_disconnect fd))
      × ((fd : Fd) → Keeps (h.on_recv fd))

  handle_events-Keeps : (h : Hooks os D) (ev : Event) → Steady h → Keeps (handle_events os D h ev)
  unfolding handle_events
  handle_events-Keeps h ev k (s, g) =
      let (_, accepts, disconnects, receives) = k in
      let (client, kernel) = os.accept g.listener g.kernel in
      ground (
        arith,
        accepts client (s, record g { kernel = kernel }),
        disconnects ev.fd (s, g),
        receives ev.fd (s, g),
      )

  pub each_event-Keeps :
      (h : Hooks os D) (evs : List Event) → Steady h → Keeps (each_event os D h evs)
  unfolding each_event
  each_event-Keeps h [] k = λ t. refl
  each_event-Keeps h (ev ∷ evs) k =
      Keeps-then (handle_events os D h ev) (each_event os D h evs) (handle_events-Keeps h ev k)
        (each_event-Keeps h evs k)
