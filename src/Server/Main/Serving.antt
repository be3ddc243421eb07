-- ===== src/Server/Main/Serving.antt =====
-- The rounds of the server's loop while signals come (src/server/server.cpp,
-- src/server/server_base.cpp).
use cpp_chat_channel.Base.{
  ℕ, suc, ◌≡◌, refl, sym, ap, ◌∙◌, List, [], ◌∷◌, Bool, true, false, not, if◌then◌else◌,
}
use cpp_chat_channel.Effects.{
  Outcome, ok, throw, hangs, M, ◌>>◌, bind_outcome, handle_outcome, return,
}
use cpp_chat_channel.Os.{Os}
use cpp_chat_channel.Tasks.{Runner, run}
use cpp_chat_channel.Tasks.Kept.{EachLeaves, run-EachLeaves}
use cpp_chat_channel.Server.{Globals, Server, State}
use cpp_chat_channel.Server.Base.Life.{proc_round, proc, stop}
use cpp_chat_channel.Server.Lobby.{Lobby}
use cpp_chat_channel.Server.Main.{signal_handler, serve}

-- The rounds up to the one in which the first signal comes, and all if none comes.
unfoldable pub until_signal : List Bool → ℕ
until_signal [] = 0
until_signal (true ∷ rounds) = 1
until_signal (false ∷ rounds) = suc (until_signal rounds)

unfoldable pub has_signal : List Bool → Bool
has_signal [] = false
has_signal (true ∷ rounds) = true
has_signal (false ∷ rounds) = has_signal rounds

if_true : {A : Type 0} {b : Bool} (x y : A) → b ≡ true → (if b then x else y) ≡ x
if_true x y e = rw e refl

module _ (os : Os) where
  abbrev pub Running : Type 0
  Running = Runner (State os.Kernel (Lobby os.Kernel)) × State os.Kernel (Lobby os.Kernel)

  -- A server that runs, and whose tasks leave it running.
  abbrev pub GoesOn : Running → Type 0
  GoesOn (tasks, t) = EachLeaves (λ u. u.0.is_running) tasks × (t.0.is_running ≡ true)

  -- What follows the last round.
  abbrev pub finish : Bool → M Running Bool
  finish true = signal_handler os >> return true
  finish false = return false

  caught :
      (x : Outcome (Unit {0}) × Running) → GoesOn x.1 → GoesOn (handle_outcome x (λ e. return tt)).1
  caught (ok a, t) h = h
  caught (throw e, t) h = h
  caught (hangs, t) h = h

  proc_round-GoesOn : (t : Running) → GoesOn t → GoesOn (proc_round os (Lobby os.Kernel) t).1
  unfolding proc_round
  proc_round-GoesOn (tasks, t) (h, e) =
      let (left, kept) = run-EachLeaves (λ u. u.0.is_running) tasks t h in
      caught (run (tasks, t)) (left, kept ∙ e)

  stopped :
      (rounds : List Bool) (tasks : Runner (State os.Kernel (Lobby os.Kernel)))
      (s : Server (Lobby os.Kernel)) (g : Globals os.Kernel)
      → serve os rounds (tasks, (record s { is_running = false }, g))
        ≡ (ok true, (tasks, (record s { is_running = false }, g)))
  unfolding serve
  stopped [] tasks s g = refl
  stopped (b ∷ rounds) tasks s g = refl

  -- A round with a signal is the last one.
  last_round :
      (x : Outcome (Unit {0}) × Running) (rounds : List Bool)
      → bind_outcome x (λ _. signal_handler os >> serve os rounds)
        ≡ bind_outcome (bind_outcome x (λ _. proc os (Lobby os.Kernel) 0)) (λ _. finish true)
  unfolding signal_handler stop proc
  last_round (ok _, (tasks, (s, g))) rounds = stopped rounds tasks s g
  last_round (throw e, t) rounds = refl
  last_round (hangs, t) rounds = refl

  next_round :
      (x : Outcome (Unit {0}) × Running) (rounds : List Bool)
      → GoesOn x.1
      → ((t : Running)
          → GoesOn t
          → serve os rounds t
            ≡ (proc os (Lobby os.Kernel) (until_signal rounds) >> finish (has_signal rounds)) t)
      → bind_outcome x (λ _. serve os rounds)
        ≡ bind_outcome
            (bind_outcome x (λ _. proc os (Lobby os.Kernel) (until_signal rounds)))
            (λ _. finish (has_signal rounds))
  next_round (ok _, t) rounds h k = k t h
  next_round (throw e, t) rounds h k = refl
  next_round (hangs, t) rounds h k = refl

  proc_step :
      (n : ℕ) (tasks : Runner (State os.Kernel (Lobby os.Kernel))) (s : Server (Lobby os.Kernel))
      (g : Globals os.Kernel)
      → s.is_running ≡ true
      → proc os (Lobby os.Kernel) (suc n) (tasks, (s, g))
        ≡ (proc_round os (Lobby os.Kernel) >> proc os (Lobby os.Kernel) n) (tasks, (s, g))
  unfolding proc
  proc_step n tasks s g e = if_true _ (ok tt, (tasks, (s, g))) e

  -- A server whose tasks leave it running does the rounds up to the one with the first signal, which
  -- is then handled, and no others.
  pub serve_lem :
      (rounds : List Bool) (t : Running)
      → GoesOn t
      → serve os rounds t
        ≡ (proc os (Lobby os.Kernel) (until_signal rounds) >> finish (has_signal rounds)) t
  unfolding serve until_signal has_signal proc
  serve_lem [] (tasks, (s, g)) (h, e) = ap (λ b. (ok (not b), (tasks, (s, g)))) e
  serve_lem (true ∷ rounds) (tasks, (s, g)) (h, e) =
      if_true _ (ok true, (tasks, (s, g))) e
      ∙ last_round (proc_round os (Lobby os.Kernel) (tasks, (s, g))) rounds
      ∙ ap {A = Outcome (Unit {0}) × Running} (λ x. bind_outcome x (λ _. finish true))
          (sym (proc_step 0 tasks s g e))
  serve_lem (false ∷ rounds) (tasks, (s, g)) (h, e) =
      if_true _ (ok true, (tasks, (s, g))) e
      ∙ next_round (proc_round os (Lobby os.Kernel) (tasks, (s, g))) rounds
          (proc_round-GoesOn (tasks, (s, g)) (h, e)) (serve_lem rounds)
      ∙ ap {A = Outcome (Unit {0}) × Running}
          (λ x. bind_outcome x (λ _. finish (has_signal rounds)))
          (sym (proc_step (until_signal rounds) tasks s g e))
