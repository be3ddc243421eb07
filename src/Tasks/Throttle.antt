-- ===== src/Tasks/Throttle.antt =====
-- How often a throttled function is called (src/libs/task_runner.h).
use cpp_chat_channel.Base.{ℕ, ◌+◌, ◌^◌, ◌≤◌, ◌<◌, List, [], ◌∷◌, arith, if◌then◌else◌}
use cpp_chat_channel.Tasks.{throttle}

-- The times at which `func` is called, when the wrapper is called at the given times.
unfoldable pub fires : ℕ → ℕ → List ℕ → List ℕ
unfolding throttle
fires timeout last [] = []
fires timeout last (now ∷ times) =
    let (called, last') = throttle timeout now last in
    let rest = fires timeout last' times in if called then now ∷ rest else rest

-- The clock does not run backwards and fits a uint64_t.
abbrev pub IsClock : ℕ → List ℕ → Type 0
IsClock last [] = Unit {0}
IsClock last (now ∷ times) = (last ≤ now) × (now < 2 ^ 64) × IsClock now times

-- Each time comes `gap` or more after the one before it.
abbrev pub IsSpaced : ℕ → ℕ → List ℕ → Type 0
IsSpaced gap last [] = Unit {0}
IsSpaced gap last (t ∷ ts) = (last + gap ≤ t) × IsSpaced gap t ts

IsClock-le : (a b : ℕ) (times : List ℕ) → a ≤ b → IsClock b times → IsClock a times
IsClock-le a b [] h c = tt
IsClock-le a b (now ∷ times) h c = (omega arith, c.1, c.2)

-- On a clock that does not run backwards, `func` is called at times that lie the timeout or more
-- apart, the first of them that long after `last`.
pub fires-IsSpaced :
    (timeout last : ℕ) (times : List ℕ)
    → IsClock last times
    → IsSpaced timeout last (fires timeout last times)
unfolding fires
fires-IsSpaced timeout last [] c = tt
fires-IsSpaced timeout last (now ∷ times) c = ground (
  arith,
  fires-IsSpaced timeout last times (IsClock-le last now times c.0 c.2),
  fires-IsSpaced timeout now times c.2,
)
