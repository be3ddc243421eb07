-- ===== src/Queue/Fifo.antt =====
-- What all threads together see of the queue (src/libs/producer_consumer.tpp).
use cpp_chat_channel.Base.{
  ◌≡◌, refl, sym, ap, ◌∙◌, Option, none, some, List, [], ◌∷◌, ◌++◌, Bool, true, false, append_assoc,
  append-nil, ◌⊎◌, inl, inr,
}
use cpp_chat_channel.Queue.{Queue, push, take_front, try_pop, wait_and_pop, pop_all, stop}

-- A call of any thread, in the order in which they get the mutex.
pub data Call (T : Type 0) : Type 0 where
  pushes : T → Call T
  tries waits takes_all stops : Call T

module _ {T : Type 0} where
  -- What a call put in.
  unfoldable pub put_in : Call T → List T
  put_in (pushes x) = x ∷ []
  put_in tries = []
  put_in waits = []
  put_in takes_all = []
  put_in stops = []

  unfoldable pub out_of : Option T → List T
  out_of none = []
  out_of (some x) = x ∷ []

  -- A pop's item, and the queue behind it.
  unfoldable pub popped : Bool × Option T × Queue T → List T × Queue T
  unfolding out_of
  popped (told, item, q) = (out_of item, q)

  -- A blocked caller takes nothing.
  unfoldable pub unblocked : Queue T → Option (Bool × Option T × Queue T) → List T × Queue T
  unfolding popped
  unblocked q none = ([], q)
  unblocked q (some r) = popped r

  -- What a call took out, and the queue after it.
  unfoldable pub call : Queue T → Call T → List T × Queue T
  unfolding push popped try_pop unblocked wait_and_pop pop_all stop
  call q (pushes x) = ([], push x q)
  call q tries = popped (try_pop q)
  call q waits = unblocked q (wait_and_pop q)
  call q takes_all = pop_all q
  call q stops = ([], stop q)

  unfoldable pub all_put_in : List (Call T) → List T
  all_put_in [] = []
  all_put_in (c ∷ cs) = put_in c ++ all_put_in cs

  unfoldable pub run : Queue T → List (Call T) → List T × Queue T
  run q [] = ([], q)
  run q (c ∷ cs) = let (out, q') = call q c in let (later, q'') = run q' cs in (out ++ later, q'')

  call_fifo : (q : Queue T) (c : Call T) → q.items ++ put_in c ≡ (call q c).0 ++ (call q c).1.items
  unfolding call put_in
  call_fifo q (pushes x) = refl
  call_fifo q tries = go q.items q.stopped
    where
      go :
          (xs : List T) (b : Bool)
          → xs ++ [] ≡ (popped (take_front xs b)).0 ++ (popped (take_front xs b)).1.items
      go [] b = refl
      go (x ∷ xs) b = ap (◌∷◌ x) (append-nil xs)
  call_fifo q waits = go q.items q.stopped
    where
      at : List T → Bool → Queue T
      at xs b = record { items = xs; stopped = b }

      go :
          (xs : List T) (b : Bool)
          → xs ++ [] ≡ (call (at xs b) waits).0 ++ (call (at xs b) waits).1.items
      go [] true = refl
      go [] false = refl
      go (x ∷ xs) true = ap (◌∷◌ x) (append-nil xs)
      go (x ∷ xs) false = ap (◌∷◌ x) (append-nil xs)
  call_fifo q takes_all = refl
  call_fifo q stops = append-nil q.items

  -- Whatever the threads do, and in whatever order, what was put in has come out in the same order
  -- or is still in the queue: nothing is lost, doubled or overtaken.
  pub run_fifo :
      (q : Queue T) (cs : List (Call T))
      → q.items ++ all_put_in cs ≡ (run q cs).0 ++ (run q cs).1.items
  unfolding run all_put_in
  run_fifo q [] = append-nil q.items
  run_fifo q (c ∷ cs) =
      sym (append_assoc q.items (put_in c) (all_put_in cs))
      ∙ ap (λ xs. xs ++ all_put_in cs) (call_fifo q c)
      ∙ append_assoc (call q c).0 (call q c).1.items (all_put_in cs)
      ∙ ap (◌++◌ (call q c).0) (run_fifo (call q c).1 cs)
      ∙ sym (append_assoc (call q c).0 (run (call q c).1 cs).0 (run (call q c).1 cs).1.items)

  -- A waiting consumer stays blocked while the queue is empty and not stopped, is told false when it
  -- is empty and stopped, and else gets the oldest item, also after a stop.
  pub wait_and_pop_lem :
      (q : Queue T)
      → ((q.items ≡ []) × (q.stopped ≡ false) × (wait_and_pop q ≡ none))
        ⊎ ((q.items ≡ []) × (q.stopped ≡ true) × (wait_and_pop q ≡ some (false, none, q)))
        ⊎ ((x : T) × (xs : List T) × (q.items ≡ x ∷ xs)
            × (wait_and_pop q ≡ some (true, some x, record q { items = xs })))
  unfolding wait_and_pop
  wait_and_pop_lem q = go q.items q.stopped
    where
      at : List T → Bool → Queue T
      at xs b = record { items = xs; stopped = b }

      go :
          (ys : List T) (b : Bool)
          → ((ys ≡ []) × (b ≡ false) × (wait_and_pop (at ys b) ≡ none))
            ⊎ ((ys ≡ []) × (b ≡ true) × (wait_and_pop (at ys b) ≡ some (false, none, at ys b)))
            ⊎ ((x : T) × (xs : List T) × (ys ≡ x ∷ xs)
                × (wait_and_pop (at ys b) ≡ some (true, some x, at xs b)))
      go [] false = inl (refl, refl, refl)
      go [] true = inr (inl (refl, refl, refl))
      go (x ∷ xs) false = inr (inr (x, xs, refl, refl))
      go (x ∷ xs) true = inr (inr (x, xs, refl, refl))
