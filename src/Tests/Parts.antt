-- ===== src/Tests/Parts.antt =====
-- The tasks, the queue, the names and the hash at concrete inputs.
use cpp_chat_channel.Base.{
  ℕ, ◌+◌, ◌≡◌, pos, List, [], ◌∷◌, ◌++◌, true, false, arith, int_eq, codes, zero, suc, ◌-◌, some,
  take, Bytes, refl,
}
use cpp_chat_channel.Util.Errors.{
  Snprintf, runtime_errorf, coded_runtime_errorf, error_of, coded_error_of, runtime_errorf_whole,
}
use cpp_chat_channel.Effects.{ok, throw, M, polling_failed}
use cpp_chat_channel.Tasks.{Task, Runner, run}
use cpp_chat_channel.Tasks.Order.{call_sessions, seen-run}
use cpp_chat_channel.Tasks.Throttle.{fires, IsSpaced, fires-IsSpaced}
use cpp_chat_channel.Queue.{Queue}
use cpp_chat_channel.Queue.Fifo.{
  Call, pushes, tries, waits, stops, takes_all, all_put_in, run_fifo, wait_and_pop_lem,
}
use cpp_chat_channel.Queue.Fifo
use cpp_chat_channel.Server.{Globals}

-- A task that counts, once; one that doubles; one that throws.
abbrev counts : Task ℕ
counts = record { once = true; func = λ n. (ok tt, n + 1) }

abbrev doubles : Task ℕ
doubles = record { once = false; func = λ n. (ok tt, n + n) }

abbrev throws : Task ℕ
throws = record { once = false; func = λ n. (throw polling_failed, n) }

abbrev tasks : Runner ℕ
tasks = (doubles ∷ counts ∷ []) ∷ [] ∷ (throws ∷ counts ∷ []) ∷ []

abbrev quiet : Runner ℕ
quiet = (counts ∷ doubles ∷ []) ∷ (counts ∷ []) ∷ []

seen-run_example : ((run (tasks, 5)).0, (run (tasks, 5)).1.1) ≡ call_sessions tasks 5
seen-run_example = seen-run tasks 5

abbrev bump : M ℕ (Unit {0})
bump n = (ok tt, n + 1)

abbrev times : List ℕ
times = 1000 ∷ 1100 ∷ 2050 ∷ 2100 ∷ 3500 ∷ []

fires-IsSpaced_example : IsSpaced 1000 0 (fires 1000 0 times)
fires-IsSpaced_example = fires-IsSpaced 1000 0 times (omega arith)

abbrev calls : List (Call ℕ)
calls = pushes 1 ∷ pushes 2 ∷ tries ∷ stops ∷ waits ∷ waits ∷ pushes 3 ∷ takes_all ∷ []

abbrev start : Queue ℕ
start = record { items = []; stopped = false }

run_fifo_example :
    [] ++ all_put_in calls ≡ (Fifo.run start calls).0 ++ (Fifo.run start calls).1.items
run_fifo_example = run_fifo start calls

abbrev shared : Globals ℕ
shared = record { kernel = 0; listener = pos 3; name_map = (pos 7, codes "kim") ∷ [] }

-- A message of 300 letters.
abbrev letters : ℕ → Bytes
letters zero = []
letters (suc n) = b'a' ∷ letters n

abbrev print_letters : Snprintf
print_letters size = some (300, take (size - 1) (letters 300))

runtime_errorf_whole_example :
    (runtime_errorf print_letters ≡ error_of (letters 300))
    × (coded_runtime_errorf (pos 500) print_letters ≡ coded_error_of (pos 500) (letters 300))
runtime_errorf_whole_example =
    runtime_errorf_whole print_letters (pos 500)
      (record { text = letters 300; fits_int = omega arith; writes = λ size h. refl })
