-- ===== src/Server/Base.antt =====
-- The class `ServerBase` (src/server/server_base.h, src/server/server_base.cpp): its
-- handlers. Virtual methods are the fields of `Hooks`. Its constructor, its tasks and its loop are in
-- Server/Base/Life.antt.
pub mod Purged
pub mod Deletion
pub mod Accept
pub mod Life
pub mod Kept
use cpp_chat_channel.Base.{
  ℕ, zero, suc, ◌≡◌, Option, none, some, List, [], ◌∷◌, Bool, true, false, ◌||◌, not, ◌==◌, nat_eq,
  int_eq, if◌then◌else◌, Bytes, codes,
}
use cpp_chat_channel.Base.Assoc.{add}
use cpp_chat_channel.Effects.{
  Exn, Outcome, ok, throw, hangs, M, ◌>>=◌, ◌>>◌, bind_outcome, handle_outcome, return, raise, get,
  modify, try_catch, on_first, pool_full, already_assigned, getaddrinfo_failed, socket_failed,
  bind_failed, listen_failed, error_code,
}
use cpp_chat_channel.Os.{Fd, fd_err, Os, Event}
use cpp_chat_channel.Comm.Buffers.{Communication, recv_frame, send_frame, clear_buffer}
use cpp_chat_channel.Tracker.{
  Tracker, new_tracker, init, polling, add_client, delete_client, destroy_tracker,
}
use cpp_chat_channel.Tasks.{Task, Runner, new_session, pushb, run}
use cpp_chat_channel.Server.{Globals, Server, State, on_tracker, on_comm, on_kernel}

-- The text that a client gets when the pool is full.
abbrev pub server_full : Bytes
server_full = codes "{\"type\":\"error\",\"message\":\"Server is full.\"}"

module _ (os : Os) (D : Type 0) where
  -- A method of a server with the derived fields `D`.
  abbrev pub Method : Type 0 → Type 0
  Method A = M (State os.Kernel D) A

  pub record Hooks : Type 0 where
    pub resolve_deletion : Method (Unit {0})
    pub on_frame : Fd → Bytes → Method (Unit {0})
    pub on_accept : Fd → Method (Unit {0})
    pub on_disconnect : Fd → Method (Unit {0})
    pub on_recv : Fd → Method (Unit {0})

module _ (os : Os) (D : Type 0) where
  -- next_deletion.insert(fd)
  unfoldable pub mark : Fd → Method os D (Unit {0})
  mark fd (s, g) = (ok tt, (record s { next_deletion = add fd s.next_deletion }, g))

  unfoldable pub close_fd : Fd → Method os D (Unit {0})
  close_fd fd (s, g) = (ok tt, (s, record g { kernel = os.close fd g.kernel }))

  unfoldable pub clear_fd : Fd → Method os D (Unit {0})
  clear_fd fd = on_comm (λ s. (ok tt, (clear_buffer fd s.0, s.1)))

  -- Whether the tracker had the client; every throw of delete_client is caught.
  unfoldable pub try_delete : Fd → Method os D Bool
  try_delete fd =
      try_catch (on_tracker (λ listener. delete_client os listener fd) >> return true)
        (λ e. return false)

  unfoldable pub delete_one : Fd → Method os D (Unit {0})
  unfolding try_delete close_fd clear_fd
  delete_one fd = do
    deleted ← try_delete fd
    if deleted then (close_fd fd >> clear_fd fd) else return tt

  unfoldable pub each_fd : (Fd → Method os D (Unit {0})) → List Fd → Method os D (Unit {0})
  each_fd body [] = return tt
  each_fd body (fd ∷ fds) = body fd >> each_fd body fds

  -- ServerBase::resolve_deletion
  unfoldable pub resolve_deletion : Method os D (Unit {0})
  resolve_deletion (s, g) = elim s.con_tracker [
    | none ↦ (ok tt, (s, g))
    | some _ ↦ each_fd delete_one s.next_deletion (s, g)
  ]

  unfoldable pub tell_full : Fd → Method os D (Unit {0})
  tell_full client =
      on_comm (λ s. let (r, k) = send_frame os client server_full s.1 in (r, (s.0, k)))

  -- The handler of a throw of add_client: a client that found the pool full is told so, which may
  -- throw, and every client is marked.
  unfoldable pub reject : Fd → Exn → Method os D (Unit {0})
  unfolding mark error_code tell_full
  reject client e =
      let full : Bool = elim (error_code e) [ none ↦ false | some code ↦ code == 601 ] in
      (if full then tell_full client else return tt) >> mark client

  -- ServerBase::on_accept
  unfoldable pub on_accept : Fd → Method os D (Unit {0})
  on_accept client =
      try_catch (on_tracker (λ listener. add_client os listener client)) (reject client)

  -- ServerBase::on_disconnect
  unfoldable pub on_disconnect : Fd → Method os D (Unit {0})
  unfolding mark
  on_disconnect fd = mark fd

  -- ServerBase::on_frame
  unfoldable pub on_frame : Fd → Bytes → Method os D (Unit {0})
  on_frame from frame = return tt

  unfoldable pub each_frame : (Bytes → Method os D (Unit {0})) → List Bytes → Method os D (Unit {0})
  each_frame body [] = return tt
  each_frame body (frame ∷ frames) = body frame >> each_frame body frames

  -- ServerBase::on_recv, where a call of recv reads `reads` times at most
  unfoldable pub on_recv : ℕ → (Fd → Bytes → Method os D (Unit {0})) → Fd → Method os D (Unit {0})
  on_recv reads on_frame from (s, g) = elim s.comm [
    | none ↦ (ok tt, (s, g))
    | some _ ↦
        try_catch
          (do frames ← on_comm (recv_frame os reads from); each_frame (on_frame from) frames)
          (λ e. mark from) (s, g)
  ]

  -- ServerBase::handle_events
  unfoldable pub handle_events : Hooks os D → Event → Method os D (Unit {0})
  handle_events h ev (s, g) =
      if ev.fd == g.listener
      then elim s.con_tracker [
        | none ↦ (ok tt, (s, g))
        | some _ ↦
            let (client, k) = os.accept g.listener g.kernel in
            let g' = record g { kernel = k } in
            if client == fd_err then (ok tt, (s, g')) else h.on_accept client (s, g')
      ]
      else if ev.hung_up || ev.errored
      then h.on_disconnect ev.fd (s, g)
      else if ev.readable
      then h.on_recv ev.fd (s, g)
      else (ok tt, (s, g))

  unfoldable pub each_event : Hooks os D → List Event → Method os D (Unit {0})
  each_event h [] = return tt
  each_event h (ev ∷ evs) = handle_events h ev >> each_event h evs
