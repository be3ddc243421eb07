-- ===== src/Comm/Stream/Chunks.antt =====
-- How the bytes are cut into reads does not matter (src/libs/communication.cpp).
use mathlib.Core.List.{flatten}
use cpp_chat_channel.Base.{
  ◌≡◌, sym, ap, ◌∙◌, inl, inr, List, [], ◌∷◌, ◌++◌, arith, Bytes, length, append_assoc, append-nil,
}
use cpp_chat_channel.Effects.{Outcome, ok, M, ◌>>=◌, ◌>>◌, return, modify}
use cpp_chat_channel.Comm.Stream.{waits, look, parse_frames}
use cpp_chat_channel.Comm.Stream.Fuel.{parse_loop-waits, parse_frames-Ended}
use cpp_chat_channel.Comm.Stream.Append.{after_chunk, parse_frames-append, prepend-eq-ok}

-- The bytes arrive in reads, and the loop runs after each.
unfoldable pub feed : List Bytes → M Bytes (List Bytes)
feed [] = return []
feed (c ∷ cs) = do
  modify (λ acc. acc ++ c)
  found ← parse_frames
  later ← feed cs
  return (found ++ later)

feed_step :
    (c : Bytes) (cs : List Bytes) (acc : Bytes) {found later : List Bytes} {mid rest : Bytes}
    → parse_frames (acc ++ c) ≡ (ok found, mid)
    → feed cs mid ≡ (ok later, rest)
    → feed (c ∷ cs) acc ≡ (ok (found ++ later), rest)
unfolding feed
feed_step c cs acc p q = rw (p, q)

parse_frames_waits : (acc : Bytes) → look acc ≡ waits → parse_frames acc ≡ (ok [], acc)
unfolding parse_frames
parse_frames_waits acc e = parse_loop-waits (length acc) [] acc e

-- If the bytes that wait and all that come parse to some frames, any sequence of reads of them
-- yields the same frames in the same order and leaves the same bytes.
pub feed-flatten :
    (cs : List Bytes) (acc : Bytes) (frames : List Bytes) (rest : Bytes)
    → look acc ≡ waits
    → parse_frames (acc ++ flatten cs) ≡ (ok frames, rest)
    → feed cs acc ≡ (ok frames, rest)
unfolding flatten after_chunk feed
feed-flatten [] acc frames rest w h =
    sym (parse_frames_waits acc w) ∙ ap parse_frames (sym (append-nil acc)) ∙ h
feed-flatten (c ∷ cs) acc frames rest w h = elim (parse_frames-Ended (acc ++ c)) [
  | inl (found, mid, e, w', _) ↦
      let (later, p, q) =
        prepend-eq-ok found frames rest (parse_frames (mid ++ flatten cs)) (joined e) in
      feed_step c cs acc e (feed-flatten cs mid later rest w' p) ∙ ap (λ fs. (ok fs, rest)) q
  | inr (x, mid, e, _) ↦ absurd (ground (arith, joined e))
]
  where
    joined :
        {r : Outcome (List Bytes) × Bytes}
        → parse_frames (acc ++ c) ≡ r
        → after_chunk (flatten cs) r ≡ (ok frames, rest)
    joined e =
        ap (after_chunk (flatten cs)) (sym e)
        ∙ sym (parse_frames-append (acc ++ c) (flatten cs))
        ∙ ap parse_frames (append_assoc acc c (flatten cs))
        ∙ h
