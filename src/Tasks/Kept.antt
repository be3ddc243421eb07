-- ===== src/Tasks/Kept.antt =====
-- Runs of a `TaskRunner` (src/libs/task_runner.tpp) whose tasks all leave a part of the state as it is.
use cpp_chat_channel.Base.{◌≡◌, refl, ◌∙◌, List, [], ◌∷◌, Bool, true, false, if◌then◌else◌}
use cpp_chat_channel.Effects.{Outcome, ok, throw, hangs, M}
use cpp_chat_channel.Tasks.{Task, Runner, run_session, run_sessions, run}

module _ {S X : Type 0} (of : S → X) where
  abbrev pub Leaves : M S (Unit {0}) → Type 0
  Leaves m = (s : S) → of (m s).1 ≡ of s

  abbrev pub AllLeave : List (Task S) → Type 0
  AllLeave [] = Unit
  AllLeave (t ∷ ts) = Leaves t.func × AllLeave ts

  abbrev pub EachLeaves : Runner S → Type 0
  EachLeaves [] = Unit
  EachLeaves (session ∷ tasks) = AllLeave session × EachLeaves tasks

  kept_task :
      (b : Bool) (t : Task S) (ts : List (Task S))
      → Leaves t.func
      → AllLeave ts
      → AllLeave (if b then ts else t ∷ ts)
  kept_task true t ts p q = q
  kept_task false t ts p q = (p, q)

  run_session-AllLeave :
      (ts : List (Task S)) (s : S)
      → AllLeave ts
      → AllLeave (run_session ts s).1.0 × (of (run_session ts s).1.1 ≡ of s)
  unfolding run_session
  run_session-AllLeave [] s h = (tt, refl)
  run_session-AllLeave (t ∷ ts) s (p, q) =
      next (t.func s).0 (run_session-AllLeave ts (t.func s).1 q)
    where
      next :
          (r : Outcome (Unit {0}))
          → AllLeave (run_session ts (t.func s).1).1.0
            × (of (run_session ts (t.func s).1).1.1 ≡ of (t.func s).1)
          → (let (_, s') = t.func s in
              let rest = run_session ts s' in
              let end : Outcome (Unit {0}) × (List (Task S) × S) = elim r [
                | ok _ ↦ (rest.0, ((if t.once then rest.1.0 else t ∷ rest.1.0), rest.1.1))
                | throw e ↦ (throw e, (t ∷ ts, s'))
                | hangs ↦ (hangs, (t ∷ ts, s'))
              ] in
              AllLeave end.1.0 × (of end.1.1 ≡ of s))
      next (ok _) (left, e) = (kept_task t.once t _ p left, e ∙ p s)
      next (throw x) _ = ((p, q), p s)
      next hangs _ = ((p, q), p s)

  run_sessions-EachLeaves :
      (tasks : Runner S) (s : S)
      → EachLeaves tasks
      → EachLeaves (run_sessions tasks s).1.0 × (of (run_sessions tasks s).1.1 ≡ of s)
  unfolding run_sessions
  run_sessions-EachLeaves [] s h = (tt, refl)
  run_sessions-EachLeaves (session ∷ tasks) s (p, q) =
      next (run_session session s).0 (run_session-AllLeave session s p)
        (run_sessions-EachLeaves tasks (run_session session s).1.1 q)
    where
      next :
          (r : Outcome (Unit {0}))
          → AllLeave (run_session session s).1.0 × (of (run_session session s).1.1 ≡ of s)
          → EachLeaves (run_sessions tasks (run_session session s).1.1).1.0
            × (of (run_sessions tasks (run_session session s).1.1).1.1
                ≡ of (run_session session s).1.1)
          → (let (_, (kept, s')) = run_session session s in
              let rest = run_sessions tasks s' in
              let end : Outcome (Unit {0}) × (Runner S × S) = elim r [
                | ok _ ↦ (rest.0, (kept ∷ rest.1.0, rest.1.1))
                | throw e ↦ (throw e, (kept ∷ tasks, s'))
                | hangs ↦ (hangs, (kept ∷ tasks, s'))
              ] in
              EachLeaves end.1.0 × (of end.1.1 ≡ of s))
      next (ok _) (first, e) (left, f) = ((first, left), f ∙ e)
      next (throw x) (first, e) _ = ((first, q), e)
      next hangs (first, e) _ = ((first, q), e)

  -- A run leaves the part as it is, and so does every task that is left in the runner.
  pub run-EachLeaves :
      (tasks : Runner S) (s : S)
      → EachLeaves tasks
      → EachLeaves (run (tasks, s)).1.0 × (of (run (tasks, s)).1.1 ≡ of s)
  unfolding run
  run-EachLeaves tasks s h = run_sessions-EachLeaves tasks s h
