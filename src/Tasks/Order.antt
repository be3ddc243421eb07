-- ===== src/Tasks/Order.antt =====
-- In which order tasks run, and which are left (src/libs/task_runner.tpp).
use cpp_chat_channel.Base.{◌≡◌, refl, List, [], ◌∷◌, map, arith, if◌then◌else◌}
use cpp_chat_channel.Effects.{Outcome, ok, M, ◌>>◌, return}
use cpp_chat_channel.Tasks.{Task, Runner, run_session, run_sessions, run}

module _ {S : Type 0} where
  -- The tasks of a session called one after another, up to the first that does not return.
  unfoldable pub call_all : List (Task S) → M S (Unit {0})
  call_all [] = return tt
  call_all (t ∷ ts) = t.func >> call_all ts

  unfoldable pub call_sessions : Runner S → M S (Unit {0})
  unfolding call_all
  call_sessions [] = return tt
  call_sessions (session ∷ tasks) = call_all session >> call_sessions tasks

  -- What a caller of run() sees: the outcome and the server's state.
  abbrev seen : {T : Type 0} → Outcome (Unit {0}) × (T × S) → Outcome (Unit {0}) × S
  seen (r, (t, s)) = (r, s)

  -- The tasks that stay for the next run.
  unfoldable pub lasting : List (Task S) → List (Task S)
  lasting [] = []
  lasting (t ∷ ts) = let rest = lasting ts in if t.once then rest else t ∷ rest

  seen-run_session : (ts : List (Task S)) (s : S) → seen (run_session ts s) ≡ call_all ts s
  unfolding run_session call_all
  seen-run_session [] s = refl
  seen-run_session (t ∷ ts) s = ground (arith, seen-run_session ts (t.func s).1)

  seen-run_sessions :
      (tasks : Runner S) (s : S) → seen (run_sessions tasks s) ≡ call_sessions tasks s
  unfolding run_sessions call_sessions
  seen-run_sessions [] s = refl
  seen-run_sessions (session ∷ tasks) s =
      ground
        (arith, seen-run_session session s, seen-run_sessions tasks (run_session session s).1.1)

  -- `run` calls the tasks session by session, each session from its front, until one throws, and its
  -- outcome and the server's state are those of the calls in that order.
  pub seen-run : (tasks : Runner S) (s : S) → seen (run (tasks, s)) ≡ call_sessions tasks s
  unfolding run
  seen-run tasks s = seen-run_sessions tasks s

  run_session_ok :
      (ts : List (Task S)) (s : S)
      → (run_session ts s).0 ≡ ok tt
      → (run_session ts s).1.0 ≡ lasting ts
  unfolding run_session lasting
  run_session_ok [] s h = refl
  run_session_ok (t ∷ ts) s h = ground (arith, run_session_ok ts (t.func s).1)

  -- A task that is not marked `once` is in its session after every run, also after a throw.
  session_persists : (ts : List (Task S)) (s : S) → lasting (run_session ts s).1.0 ≡ lasting ts
  unfolding run_session lasting
  session_persists [] s = refl
  session_persists (t ∷ ts) s = ground (arith, session_persists ts (t.func s).1)

  sessions_persist :
      (tasks : Runner S) (s : S) → map lasting (run_sessions tasks s).1.0 ≡ map lasting tasks
  unfolding run_sessions
  sessions_persist [] s = refl
  sessions_persist (session ∷ tasks) s =
      ground (arith, session_persists session s, sessions_persist tasks (run_session session s).1.1)

  -- Whatever the tasks do, `run` keeps in each session all tasks that are not marked `once`, in their
  -- order.
  pub run_persists :
      (tasks : Runner S) (s : S) → map lasting (run (tasks, s)).1.0 ≡ map lasting tasks
  unfolding run
  run_persists tasks s = sessions_persist tasks s

  sessions_ok :
      (tasks : Runner S) (s : S)
      → (run_sessions tasks s).0 ≡ ok tt
      → (run_sessions tasks s).1.0 ≡ map lasting tasks
  unfolding run_sessions
  sessions_ok [] s h = refl
  sessions_ok (session ∷ tasks) s h =
      ground (arith, run_session_ok session s, sessions_ok tasks (run_session session s).1.1)

  -- After a run in which no task throws, exactly the tasks not marked `once` are left.
  pub run_ok :
      (tasks : Runner S) (s : S)
      → (run (tasks, s)).0 ≡ ok tt
      → (run (tasks, s)).1.0 ≡ map lasting tasks
  unfolding run
  run_ok tasks s h = sessions_ok tasks s h
