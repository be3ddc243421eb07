-- ===== src/Server/Lobby/Expiry.antt =====
-- Which channels are deleted (src/server/channel_server.cpp).
use cpp_chat_channel.Base.{
  ℕ, ◌+◌, ◌-◌, ◌%◌, ◌^◌, ◌<◌, subst, ◌≡◌, refl, ap, ◌∙◌, inl, inr, List, [], ◌∷◌, Bool, true, false,
  ◌||◌, ◌&&◌, arith, ltb, ◌==◌, ==_iff, nat_eq, int_eq, if◌then◌else◌, Bool-cases,
}
use cpp_chat_channel.Effects.{Outcome, ok, throw, hangs}
use cpp_chat_channel.Os.{fd_err, Os}
use cpp_chat_channel.Server.{Globals, Server, State}
use cpp_chat_channel.Server.Base.Life.{drop_tracker, destroy}
use cpp_chat_channel.Server.Base.Deletion.{kern}
use cpp_chat_channel.Server.Chat.{Chat}
use cpp_chat_channel.Server.Channel.{Room}
use cpp_chat_channel.Server.Channel.Worker as Worker
use cpp_chat_channel.Server.Lobby.{Lobby, Channel, with_channels}
use cpp_chat_channel.Server.Lobby.Upkeep.{is_expired, delete_channel, sweep, check_channels}

-- Whether a room has been stopped for more than five minutes, or since a time that lies ahead of the
-- clock, but for the last five minutes of its range.
abbrev pub has_idled : ℕ → Room → Bool
has_idled now r =
    let since = r.empty_since in
    r.stop_flag
    && (ltb 0 since
        && (if ltb now since
            then ltb (since - now) (2 ^ 64 - 300000)
            else ltb (since + 300000) now))

is_expired-has_idled :
    (now : ℕ) (r : Room)
    → now < 2 ^ 64
    → r.empty_since < 2 ^ 64
    → is_expired now r ≡ has_idled now r
unfolding is_expired
is_expired-has_idled now r h l =
    let since = r.empty_since in
    elim (Bool-cases (ltb now since)) [
      | inl ahead ↦
          let e : (now + 2 ^ 64 - since) % 2 ^ 64 ≡ now + 2 ^ 64 - since = ground arith in
          ground arith
      | inr behind ↦
          let e : (now + 2 ^ 64 - since) % 2 ^ 64 ≡ now - since = ground arith in ground arith
    ]

module _ {K : Type 0} where
  -- The channels that are kept, in their order.
  abbrev pub surviving : ℕ → List (ℕ × Channel K) → List (ℕ × Channel K)
  surviving now [] = []
  surviving now (entry ∷ entries) =
      let rest = surviving now entries in
      if is_expired now entry.1.1.derived.more then rest else entry ∷ rest

  abbrev any_expired : ℕ → List (ℕ × Channel K) → Bool
  any_expired now [] = false
  any_expired now (entry ∷ entries) =
      is_expired now entry.1.1.derived.more || any_expired now entries

  -- The same, by the time for which the rooms have been stopped.
  abbrev pub lasting : ℕ → List (ℕ × Channel K) → List (ℕ × Channel K)
  lasting now [] = []
  lasting now (entry ∷ entries) =
      let rest = lasting now entries in
      if has_idled now entry.1.1.derived.more then rest else entry ∷ rest

  abbrev pub any_idled : ℕ → List (ℕ × Channel K) → Bool
  any_idled now [] = false
  any_idled now (entry ∷ entries) = has_idled now entry.1.1.derived.more || any_idled now entries

  -- The times are those of a clock of 64 bits.
  abbrev pub EachTimed : List (ℕ × Channel K) → Type 0
  EachTimed [] = Unit {0}
  EachTimed (entry ∷ entries) = (entry.1.1.derived.more.empty_since < 2 ^ 64) × EachTimed entries

  by_idling :
      (now : ℕ) (m : List (ℕ × Channel K))
      → now < 2 ^ 64
      → EachTimed m
      → (surviving now m ≡ lasting now m) × (any_expired now m ≡ any_idled now m)
  by_idling now [] h t = (refl, refl)
  by_idling now (entry ∷ m) h (l, t) =
      let (kept, some_gone) = by_idling now m h t in
      rw (is_expired-has_idled now entry.1.1.derived.more h l, kept, some_gone) (refl, refl)

module _ (os : Os) where
  destroy-closes : (D : Type 0) (t : State os.Kernel D) → (destroy os D t).1.listener ≡ fd_err
  unfolding destroy
  destroy-closes D t = elim (Bool-cases ((drop_tracker os D t).1.listener == fd_err)) [
    | inl e ↦ rw (e, destroy) ((==_iff (drop_tracker os D t).1.listener fd_err).0 e)
    | inr e ↦ rw (e, destroy) refl
  ]

  -- The worker of a room that has stopped is joined at once.
  delete_channel_stopped :
      (channel : Channel os.Kernel) (g : Globals os.Kernel)
      → channel.1.derived.more.stop_flag ≡ true
      → delete_channel os channel g
        ≡ (ok tt, (destroy os (Chat Room) (Worker.stop os (channel.1, g)).1).1)
  unfolding delete_channel Worker.join_worker
  delete_channel_stopped channel g e = ground arith

  stopped-is_expired : (now : ℕ) (r : Room) → is_expired now r ≡ true → r.stop_flag ≡ true
  unfolding is_expired
  stopped-is_expired now r e = ground arith

  -- What happens to the listener.
  abbrev pub Shuts : Bool → Globals os.Kernel → Globals os.Kernel → Type 0
  Shuts true g g' = g'.listener ≡ fd_err
  Shuts false g g' = g' ≡ g

  Shuts-closed :
      (b : Bool) (g g' : Globals os.Kernel)
      → Shuts b g g'
      → g.listener ≡ fd_err
      → g'.listener ≡ fd_err
  Shuts-closed true g g' h e = h
  Shuts-closed false g g' h e = ap (λ x. x.listener) h ∙ e

  module _ (now : ℕ) (entry : ℕ × Channel os.Kernel) (entries : List (ℕ × Channel os.Kernel))
      (g : Globals os.Kernel) where
    abbrev gone : Globals os.Kernel
    gone = (destroy os (Chat Room) (Worker.stop os (entry.1.1, g)).1).1

    sweep_expired :
        is_expired now entry.1.1.derived.more ≡ true
        → sweep os now (entry ∷ entries) g ≡ sweep os now entries gone
    unfolding sweep
    sweep_expired h =
        rw
          (
            h,
            delete_channel_stopped entry.1 g (stopped-is_expired now entry.1.1.derived.more h),
            sweep,
          )
          refl

    sweep_kept :
        (left : List (ℕ × Channel os.Kernel)) (g' : Globals os.Kernel)
        → is_expired now entry.1.1.derived.more ≡ false
        → sweep os now entries g ≡ (ok left, g')
        → sweep os now (entry ∷ entries) g ≡ (ok (entry ∷ left), g')
    unfolding sweep
    sweep_kept left g' h e = rw (h, e, sweep) refl

  sweep_lem :
      (now : ℕ) (entries : List (ℕ × Channel os.Kernel)) (g : Globals os.Kernel)
      → (g' : Globals os.Kernel) × (sweep os now entries g ≡ (ok (surviving now entries), g'))
        × Shuts (any_expired now entries) g g'
  sweep_lem now [] g = (g, unfold sweep in refl, refl)
  sweep_lem now (entry ∷ entries) g = elim (Bool-cases (is_expired now entry.1.1.derived.more)) [
    | inl e ↦
        let g1 = gone now entry entries g in
        let (g', swept, shut) = sweep_lem now entries g1 in
        let closed = destroy-closes (Chat Room) (Worker.stop os (entry.1.1, g)).1 in
        rw e (
          g',
          sweep_expired now entry entries g e ∙ swept,
          Shuts-closed (any_expired now entries) g1 g' shut closed,
        )
    | inr e ↦
        let (g', swept, shut) = sweep_lem now entries g in
        rw e (g', sweep_kept now entry entries g (surviving now entries) g' e swept, shut)
  ]

  -- What `check_channels` makes of the end of its loop.
  abbrev after_sweep :
      Server (Lobby os.Kernel)
      → Outcome (List (ℕ × Channel os.Kernel)) × Globals os.Kernel
      → Outcome (Unit {0}) × State os.Kernel (Lobby os.Kernel)
  after_sweep s (r, g) = elim r [
    | ok left ↦ (ok tt, (with_channels s left, g))
    | throw e ↦ (throw e, (s, g))
    | hangs ↦ (hangs, (s, g))
  ]

  -- `check_channels` by its own test.
  pub check_channels-surviving :
      (s : Server (Lobby os.Kernel)) (g : Globals os.Kernel)
      → (g' : Globals os.Kernel) × (check_channels os (s, g)
          ≡ (ok tt, (with_channels s (surviving (os.system_ms g.kernel).0 s.derived.channels), g')))
        × Shuts
            (any_expired (os.system_ms g.kernel).0 s.derived.channels)
            (kern g (os.system_ms g.kernel).1)
            g'
  unfolding check_channels
  check_channels-surviving s g =
      let (g', swept, shut) =
        sweep_lem (os.system_ms g.kernel).0 s.derived.channels (kern g (os.system_ms g.kernel).1) in
      (g', ap (after_sweep s) swept, shut)

  -- Where the clock and the times of the rooms are below 2 ^ 64, `check_channels` returns: no worker
  -- that it joins keeps it waiting. It deletes the channels that have been stopped for more than
  -- 300000 milliseconds, since a time that is not zero, and also those that were stopped at a time
  -- that lies ahead of the clock by less than 2 ^ 64 - 300000, since the difference wraps; the others
  -- are kept, in their order. If it deletes one, the listening socket of the whole server is gone; if
  -- it deletes none, nothing changes but the clock's reading.
  pub check_channels_lem :
      (s : Server (Lobby os.Kernel)) (g : Globals os.Kernel)
      → (os.system_ms g.kernel).0 < 2 ^ 64
      → EachTimed s.derived.channels
      → (g' : Globals os.Kernel) × (check_channels os (s, g)
          ≡ (ok tt, (with_channels s (lasting (os.system_ms g.kernel).0 s.derived.channels), g')))
        × Shuts
            (any_idled (os.system_ms g.kernel).0 s.derived.channels)
            (kern g (os.system_ms g.kernel).1)
            g'
  check_channels_lem s g h t =
      let now = (os.system_ms g.kernel).0 in
      let (kept, some_gone) = by_idling now s.derived.channels h t in
      let (g', done, shut) = check_channels-surviving s g in
      (
        g',
        done ∙ ap (λ m. (ok tt, (with_channels s m, g'))) kept,
        subst (λ b. Shuts b (kern g (os.system_ms g.kernel).1) g') some_gone shut,
      )
