-- ===== src/Tasks/Sessions.antt =====
-- Where a pushed task goes (src/libs/task_runner.tpp).
use cpp_chat_channel.Base.{
  ℕ, zero, suc, ◌≡◌, ◌≢◌, refl, ap, none, some, List, [], ◌∷◌, ◌++◌, true, false, get_elem?, set,
  Option-cases, inl, inr,
}
use cpp_chat_channel.Effects.{Outcome, ok, throw, M, session_out_of_range}
use cpp_chat_channel.Tasks.{Task, Runner, exec_locked, pushf, pushb, push_oncef, push_onceb}

module _ {S : Type 0} where
  get_elem?-set :
      (tasks : Runner S) (i : ℕ) (session x : List (Task S))
      → get_elem? tasks i ≡ some session
      → get_elem? (set tasks i x) i ≡ some x
  get_elem?-set [] i session x h = cc
  get_elem?-set (y ∷ tasks) zero session x h = refl
  get_elem?-set (y ∷ tasks) (suc i) session x h = get_elem?-set tasks i session x h

  get_elem?-set_ne :
      (tasks : Runner S) (i j : ℕ) (x : List (Task S))
      → i ≢ j
      → get_elem? (set tasks i x) j ≡ get_elem? tasks j
  get_elem?-set_ne [] i j x h = refl
  get_elem?-set_ne (y ∷ tasks) zero zero x h = absurd (h refl)
  get_elem?-set_ne (y ∷ tasks) zero (suc j) x h = refl
  get_elem?-set_ne (y ∷ tasks) (suc i) zero x h = refl
  get_elem?-set_ne (y ∷ tasks) (suc i) (suc j) x h =
      get_elem?-set_ne tasks i j x (λ e. h (ap suc e))

  -- What an operation on one session does to the runner: a session that is there becomes the
  -- operation's result, every other one stays, and for one that is not there the call throws and
  -- nothing changes.
  pub data Locked (idx : ℕ) (op : List (Task S) → List (Task S)) (tasks : Runner S)
      : Outcome (Unit {0}) × Runner S → Type 0 where
    missing : get_elem? tasks idx ≡ none → Locked idx op tasks (throw session_out_of_range, tasks)
    done :
        (session : List (Task S)) (tasks' : Runner S)
        → get_elem? tasks idx ≡ some session
        → get_elem? tasks' idx ≡ some (op session)
        → ((j : ℕ) → idx ≢ j → get_elem? tasks' j ≡ get_elem? tasks j)
        → Locked idx op tasks (ok tt, tasks')

  pub exec_locked-Locked :
      (idx : ℕ) (op : List (Task S) → List (Task S)) (tasks : Runner S)
      → Locked idx op tasks (exec_locked idx op tasks)
  unfolding exec_locked
  exec_locked-Locked idx op tasks = elim (Option-cases (get_elem? tasks idx)) [
    | inl e ↦ rw (e, exec_locked) (missing e)
    | inr (session, e) ↦
        rw (e, exec_locked)
          (done session (set tasks idx (op session)) e
            (get_elem?-set tasks idx session (op session) e)
            (λ j apart. get_elem?-set_ne tasks idx j (op session) apart))
  ]

  -- The four pushes put a task, marked `once` or not, in front of or behind the tasks of the session
  -- that they name, and leave the other sessions; without that session they throw.
  pub push-Locked :
      (which : ℕ) (func : M S (Unit {0})) (tasks : Runner S)
      → Locked which
          (λ ts. record { once = true; func = func } ∷ ts)
          tasks
          (push_oncef which func tasks)
        × Locked which
            (λ ts. ts ++ record { once = true; func = func } ∷ [])
            tasks
            (push_onceb which func tasks)
        × Locked which
            (λ ts. record { once = false; func = func } ∷ ts)
            tasks
            (pushf which func tasks)
        × Locked which
            (λ ts. ts ++ record { once = false; func = func } ∷ [])
            tasks
            (pushb which func tasks)
  unfolding push_oncef push_onceb pushf pushb
  push-Locked which func tasks = (
    exec_locked-Locked which _ tasks,
    exec_locked-Locked which _ tasks,
    exec_locked-Locked which _ tasks,
    exec_locked-Locked which _ tasks,
  )
