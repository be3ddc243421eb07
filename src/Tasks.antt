-- ===== src/Tasks.antt =====
-- The class `TaskRunner` and the wrapper `AsThrottle` (src/libs/task_runner.h,
-- src/libs/task_runner.tpp). A task is a method over the server's state `S`; no task touches the
-- runner itself, whose mutex is held while it runs.
pub mod Order
pub mod Sessions
pub mod Throttle
pub mod Kept
use mathlib.Core.Option
use cpp_chat_channel.Base.{
  ℕ, zero, suc, ◌+◌, ◌-◌, ◌%◌, ◌^◌, Option, none, some, List, [], ◌∷◌, ◌++◌, Bool, true, false, ltb,
  leb, if◌then◌else◌, length, get_elem?, set,
}
use cpp_chat_channel.Effects.{Outcome, ok, throw, hangs, M, session_out_of_range}

-- TaskRunner::Task
pub record Task (S : Type 0) : Type 0 where
  pub once : Bool
  pub func : M S (Unit {0})

-- std::vector<std::deque<Task>>
abbrev pub Runner : Type 0 → Type 0
Runner S = List (List (Task S))

module _ {S : Type 0} where
  -- op on session_at(idx), under the mutex
  unfoldable pub exec_locked : ℕ → (List (Task S) → List (Task S)) → M (Runner S) (Unit {0})
  exec_locked idx op tasks = elim (get_elem? tasks idx) [
    | none ↦ (throw session_out_of_range, tasks)
    | some session ↦ (ok tt, set tasks idx (op session))
  ]

  unfoldable pub session_pushb : Bool → M S (Unit {0}) → List (Task S) → List (Task S)
  session_pushb flag func session = session ++ record { once = flag; func = func } ∷ []

  unfoldable pub session_pushf : Bool → M S (Unit {0}) → List (Task S) → List (Task S)
  session_pushf flag func session = record { once = flag; func = func } ∷ session

  unfoldable pub push_oncef : ℕ → M S (Unit {0}) → M (Runner S) (Unit {0})
  unfolding exec_locked session_pushf
  push_oncef which func = exec_locked which (session_pushf true func)

  unfoldable pub push_onceb : ℕ → M S (Unit {0}) → M (Runner S) (Unit {0})
  unfolding exec_locked session_pushb
  push_onceb which func = exec_locked which (session_pushb true func)

  unfoldable pub pushf : ℕ → M S (Unit {0}) → M (Runner S) (Unit {0})
  unfolding exec_locked session_pushf
  pushf which func = exec_locked which (session_pushf false func)

  unfoldable pub pushb : ℕ → M S (Unit {0}) → M (Runner S) (Unit {0})
  unfolding exec_locked session_pushb
  pushb which func = exec_locked which (session_pushb false func)

  -- session.pop_front() and session.pop_back(): undefined on an empty deque, hence `none`.
  unfoldable pub pop_front : List (Task S) → Option (List (Task S))
  pop_front [] = none
  pop_front (t ∷ ts) = some ts

  unfoldable pub pop_back : List (Task S) → Option (List (Task S))
  pop_back [] = none
  pop_back (t ∷ ts) = elim (pop_back ts) [ none ↦ some [] | some left ↦ some (t ∷ left) ]

  unfoldable pub pop_at :
      (List (Task S) → Option (List (Task S)))
      → ℕ
      → Runner S
      → Option (Outcome (Unit {0}) × Runner S)
  pop_at op idx tasks = elim (get_elem? tasks idx) [
    | none ↦ some (throw session_out_of_range, tasks)
    | some session ↦ Option.map (λ left. (ok tt, set tasks idx left)) (op session)
  ]

  unfoldable pub popf : ℕ → Runner S → Option (Outcome (Unit {0}) × Runner S)
  unfolding pop_at pop_front
  popf = pop_at pop_front

  unfoldable pub popb : ℕ → Runner S → Option (Outcome (Unit {0}) × Runner S)
  unfolding pop_at pop_back
  popb = pop_at pop_back

  -- new_session(cnt)
  unfoldable pub new_session : ℕ → Runner S → Runner S
  new_session zero tasks = tasks
  new_session (suc cnt) tasks = new_session cnt (tasks ++ [] ∷ [])

  -- One session of run(): a task that returns is erased if it runs once, and a throw leaves the loop
  -- with the task and all behind it in place.
  unfoldable pub run_session : List (Task S) → S → Outcome (Unit {0}) × (List (Task S) × S)
  run_session [] s = (ok tt, ([], s))
  run_session (t ∷ ts) s =
      let (r, s') = t.func s in
      let rest = run_session ts s' in
      elim r [
        | ok _ ↦ (rest.0, ((if t.once then rest.1.0 else t ∷ rest.1.0), rest.1.1))
        | throw e ↦ (throw e, (t ∷ ts, s'))
        | hangs ↦ (hangs, (t ∷ ts, s'))
      ]

  unfoldable pub run_sessions : Runner S → S → Outcome (Unit {0}) × (Runner S × S)
  run_sessions [] s = (ok tt, ([], s))
  run_sessions (session ∷ tasks) s =
      let (r, (left, s')) = run_session session s in
      let rest = run_sessions tasks s' in
      elim r [
        | ok _ ↦ (rest.0, (left ∷ rest.1.0, rest.1.1))
        | throw e ↦ (throw e, (left ∷ tasks, s'))
        | hangs ↦ (hangs, (left ∷ tasks, s'))
      ]

  -- run()
  unfoldable pub run : M (Runner S × S) (Unit {0})
  unfolding run_session run_sessions
  run (tasks, s) = run_sessions tasks s

-- A call of the throttled function at the time `now` on a uint64_t clock: whether it calls `func`,
-- and the time kept in `last`.
unfoldable pub throttle : ℕ → ℕ → ℕ → Bool × ℕ
throttle timeout now last =
    if ltb ((now + 2 ^ 64 - last) % 2 ^ 64) timeout then (false, last) else (true, now)
