-- ===== src/Server.antt =====
-- The servers' shared state (src/server/server_base.h, src/server/user_manager.h): what is static in the
-- program, and the fields of `ServerBase`; the fields of a derived class are `derived`.
pub mod Users
pub mod Base
pub mod Typed
pub mod Chat
pub mod Channel
pub mod Lobby
pub mod Main
use cpp_chat_channel.Base.{ℕ, ◌≡◌, Option, none, some, List, [], Bool, true, Bytes}
use cpp_chat_channel.Effects.{Outcome, ok, throw, hangs, M}
use cpp_chat_channel.Os.{Fd, fd_err}
use cpp_chat_channel.Tracker.{Tracker}
use cpp_chat_channel.Comm.Buffers.{Communication}

-- The system with ServerBase::fd and UserManager::name_map.
pub record Globals (K : Type 0) : Type 0 where
  pub kernel : K
  pub listener : Fd
  pub name_map : List (Fd × Bytes)

pub record Server (D : Type 0) : Type 0 where
  -- null pointers until the constructor sets them
  pub con_tracker : Option Tracker
  pub comm : Option Communication
  pub timeout : ℕ
  pub next_deletion : List Fd
  pub is_running : Bool
  pub derived : D

-- The state of a method: the object, and what is shared.
abbrev pub State : Type 0 → Type 0 → Type 0
State K D = Server D × Globals K

module _ {K D : Type 0} where
  -- A call through `con_tracker`, which is fatal if the pointer is null.
  abbrev pub on_tracker : {A : Type 0} → (Fd → M (Tracker × K) A) → M (State K D) A
  on_tracker m (s, g) = elim s.con_tracker [
    | none ↦ (hangs, (s, g))
    | some t ↦
        let (r, (t', k)) = m g.listener (t, g.kernel) in
        (r, (record s { con_tracker = some t' }, record g { kernel = k }))
  ]

  abbrev pub on_comm : {A : Type 0} → M (Communication × K) A → M (State K D) A
  on_comm m (s, g) = elim s.comm [
    | none ↦ (hangs, (s, g))
    | some c ↦
        let (r, (c', k)) = m (c, g.kernel) in
        (r, (record s { comm = some c' }, record g { kernel = k }))
  ]

  abbrev pub on_kernel : {A : Type 0} → M K A → M (State K D) A
  on_kernel m (s, g) = let (r, k) = m g.kernel in (r, (s, record g { kernel = k }))
