-- ===== src/Queue.antt =====
-- The class `ProducerConsumerQueue` (src/libs/producer_consumer.h, src/libs/producer_consumer.tpp).
-- Every operation holds the queue's mutex, so the calls of all threads happen one after another.
pub mod Fifo
use cpp_chat_channel.Base.{
  ℕ, Option, none, some, List, [], ◌∷◌, ◌++◌, Bool, true, false, ◌&&◌, ◌||◌, not, if◌then◌else◌,
  length,
}

pub record Queue (T : Type 0) : Type 0 where
  pub items : List T
  pub stopped : Bool

module _ {T : Type 0} where
  unfoldable pub empty_queue : Queue T
  empty_queue = record { items = []; stopped = false }

  unfoldable pub push : T → Queue T → Queue T
  push item q = record q { items = q.items ++ item ∷ [] }

  -- queue_.front(), and the queue after queue_.pop(); the Boolean is what the caller is told.
  unfoldable pub take_front : List T → Bool → Bool × Option T × Queue T
  take_front [] stopped = (false, none, record { items = []; stopped = stopped })
  take_front (x ∷ xs) stopped = (true, some x, record { items = xs; stopped = stopped })

  unfoldable pub is_empty : Queue T → Bool
  is_empty q = elim q.items [ [] ↦ true | _ ∷ _ ↦ false ]

  unfoldable pub size : Queue T → ℕ
  size q = length q.items

  unfoldable pub try_pop : Queue T → Bool × Option T × Queue T
  unfolding take_front
  try_pop q = take_front q.items q.stopped

  -- `none` while the condition that the caller waits for is false: it stays blocked.
  unfoldable pub wait_and_pop : Queue T → Option (Bool × Option T × Queue T)
  unfolding take_front is_empty
  wait_and_pop q =
      if q.stopped || not (is_empty q)
      then (if q.stopped && is_empty q
          then some (false, none, q)
          else some (take_front q.items q.stopped))
      else none

  unfoldable pub pop_all : Queue T → List T × Queue T
  pop_all q = (q.items, record q { items = [] })

  unfoldable pub stop : Queue T → Queue T
  stop q = record q { stopped = true }
