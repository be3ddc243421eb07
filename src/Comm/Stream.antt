-- ===== src/Comm/Stream.antt =====
-- The loop of `Communication::recv_frame` that cuts the accumulated bytes into frames
-- (src/libs/communication.cpp).
pub mod Fuel
pub mod Append
pub mod Chunks
pub mod RoundTrip
use cpp_chat_channel.Base.{
  ℕ, zero, suc, ◌+◌, ◌*◌, Option, none, some, List, [], ◌∷◌, ◌++◌, true, false, ltb, ◌==◌, nat_eq,
  if◌then◌else◌, Bytes, length, take, drop,
}
use cpp_chat_channel.Effects.{Exn, Outcome, ok, throw, hangs, M, invalid_header, frame_too_large}
use cpp_chat_channel.Comm.Header.{header_length}

abbrev pub max_frame_size : ℕ
max_frame_size = 16 * 1024

-- What a round of the loop finds at the front of the bytes: too few of them, a header that throws,
-- an empty frame, or a whole frame of so many bytes.
pub data Look : Type 0 where
  waits : Look
  fails : Exn → Look
  skips : Look
  frame : ℕ → Look

unfoldable pub look_at : Option ℕ → ℕ → Look
look_at none size = fails invalid_header
look_at (some len) size =
    if ltb max_frame_size len
    then fails frame_too_large
    else if len == 0
    then skips
    else if ltb size (4 + len)
    then waits
    else frame len

unfoldable pub look : Bytes → Look
look acc = if ltb (length acc) 4 then waits else look_at (header_length (take 4 acc)) (length acc)

-- while (acc.size() >= 4) { … }; the state is `acc`.
unfoldable pub parse_loop : ℕ → List Bytes → M Bytes (List Bytes)
parse_loop zero frames acc = (hangs, acc)
parse_loop (suc fuel) frames acc = elim (look acc) [
  | waits ↦ (ok frames, acc)
  | fails e ↦ (throw e, acc)
  | skips ↦ parse_loop fuel frames (drop 4 acc)
  | frame len ↦ parse_loop fuel (frames ++ take len (drop 4 acc) ∷ []) (drop (4 + len) acc)
]

-- A round erases four bytes at least, so one round more than there are bytes is enough.
unfoldable pub parse_frames : M Bytes (List Bytes)
parse_frames acc = parse_loop (suc (length acc)) [] acc
