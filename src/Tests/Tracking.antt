-- ===== src/Tests/Tracking.antt =====
-- The tracker and the server's deletion at concrete inputs.
use cpp_chat_channel.Base.{
  ◌≡◌, ◌≢◌, refl, ◌∙◌, pos, none, true, false, [], ◌∷◌, arith, ==_iff, int_eq,
}
use cpp_chat_channel.Base.Assoc.{contains, lookup, insert}
use cpp_chat_channel.Effects.{ok}
use cpp_chat_channel.Os.{Fd}
use cpp_chat_channel.Comm.Header.{header}
use cpp_chat_channel.Comm.Buffers.{Communication, send_frame, send_header, send_payload, send_loop}
use cpp_chat_channel.Tracker.{Tracker, add_client, delete_client}
use cpp_chat_channel.Tracker.Mirror.{IsMirror}
use cpp_chat_channel.Tracker.Add.{Adds, add_client-Adds, add_client-IsMirror}
use cpp_chat_channel.Tracker.Delete.{Deletes, delete_client-Deletes, delete_client-IsMirror}
use cpp_chat_channel.Server.{Globals, Server}
use cpp_chat_channel.Server.Base.{resolve_deletion, server_full}
use cpp_chat_channel.Server.Base.Deletion.{at, kern, resolve_deletion-Purged}
use cpp_chat_channel.Server.Base.Purged.{Purged}
use cpp_chat_channel.Server.Base.Accept.{reject_tick, rejected_stays_open}
use cpp_chat_channel.Tests.System.{
  Machine, machine, machine_epoll, machine_close, interest_lem, is_open_lem, started,
}

-- Clients 7 and 8 fill the pool.
abbrev pub pool : Tracker
pool = record { max_fd = 2; efd = pos 4; clients = pos 7 ∷ pos 8 ∷ []; events = [] }

pool_mirrors :
    (fd : Fd)
    → fd ≢ pos 3
    → contains fd (pos 3 ∷ pos 7 ∷ pos 8 ∷ []) ≡ contains fd (pos 7 ∷ pos 8 ∷ [])
unfolding contains
pool_mirrors fd h = ground (arith, ==_iff (pos 3) fd)

pub pool-IsMirror : IsMirror machine machine_epoll (pos 3) (pool, started)
unfolding contains
pool-IsMirror = record {
  initialized = λ e. cc;
  distinct = (refl, (refl, tt));
  bounded = omega arith;
  valid = refl;
  no_listener = refl;
  no_self = refl;
  mirrored = λ fd h. interest_lem started (pos 4) fd ∙ pool_mirrors fd h;
}

add_client-Adds_example :
    Adds machine (pos 3) (pos 9) pool started (add_client machine (pos 3) (pos 9) (pool, started))
add_client-Adds_example = add_client-Adds machine (pos 3) (pos 9) pool started

add_client-IsMirror_example :
    IsMirror machine machine_epoll (pos 3) (add_client machine (pos 3) (pos 9) (pool, started)).1
add_client-IsMirror_example =
    add_client-IsMirror machine machine_epoll (pos 3) (pos 9) (pool, started) pool-IsMirror

delete_client-Deletes_example :
    Deletes machine
      (pos 3)
      (pos 7)
      pool
      started
      (delete_client machine (pos 3) (pos 7) (pool, started))
delete_client-Deletes_example = delete_client-Deletes machine (pos 3) (pos 7) pool started

delete_client-IsMirror_example :
    IsMirror machine machine_epoll (pos 3) (delete_client machine (pos 3) (pos 7) (pool, started)).1
delete_client-IsMirror_example =
    delete_client-IsMirror machine machine_epoll (pos 3) (pos 7) (pool, started) pool-IsMirror

abbrev lobby : Server (Unit {0})
lobby = record {
  con_tracker = none;
  comm = none;
  timeout = 0;
  next_deletion = pos 7 ∷ pos 9 ∷ [];
  is_running = true;
  derived = tt;
}

abbrev shared : Globals Machine
shared = record { kernel = started; listener = pos 3; name_map = [] }

abbrev pub buffers : Communication
buffers = record { rbuf = [] }

resolve_deletion-Purged_example :
    (t' : Tracker) × (c' : Communication) × (k' : Machine) × (resolve_deletion machine
        (Unit {0})
        (at lobby pool buffers, kern shared started)
      ≡ (ok tt, (at lobby t' c', kern shared k')))
    × Purged machine machine_epoll machine_close
        (pos 3)
        (pos 7 ∷ pos 9 ∷ [])
        pool
        buffers
        started
        t'
        c'
        k'
resolve_deletion-Purged_example =
    resolve_deletion-Purged machine machine_epoll machine_close (Unit {0}) lobby shared pool buffers
      started pool-IsMirror

told :
    send_frame machine (pos 9) server_full started
    ≡ (ok tt, (send_frame machine (pos 9) server_full started).1)
unfolding send_frame send_header send_payload send_loop header contains lookup insert
told = refl

-- Connection 9 finds the pool full.
rejected_stays_open_example :
    (s' : Server (Unit {0})) × (t' : Tracker) × (c' : Communication) × (k' : Machine) × (reject_tick
        machine
        (Unit {0})
        (pos 9)
        (at lobby pool buffers, kern shared started)
      ≡ (ok tt, (at s' t' c', kern shared k')))
    × (contains (pos 9) s'.next_deletion ≡ true)
    × (contains (pos 9) t'.clients ≡ false)
    × (machine_close.is_open k' (pos 9) ≡ true)
unfolding contains
rejected_stays_open_example =
    rejected_stays_open machine machine_epoll machine_close (Unit {0}) lobby shared (pos 9) pool
      buffers started (send_frame machine (pos 9) server_full started).1 pool-IsMirror (λ e. cc)
      (λ e. cc) (omega arith) refl (is_open_lem started (pos 9)) told
