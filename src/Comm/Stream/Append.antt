-- ===== src/Comm/Stream/Append.antt =====
-- Bytes that come behind others (src/libs/communication.cpp).
use cpp_chat_channel.Base.{
  ℕ, zero, suc, ◌+◌, ◌≤◌, ◌<◌, ◌≡◌, ◌≢◌, refl, sym, ap, subst, ◌∙◌, inl, inr, List, [], ◌∷◌, ◌++◌,
  arith, Bytes, length, take, drop, length-append, length-drop, take-append, drop-append,
  append_assoc, append-nil, Option, none, some,
}
use cpp_chat_channel.Effects.{Outcome, ok, throw, hangs}
use cpp_chat_channel.Comm.Header.{header_length}
use cpp_chat_channel.Comm.Stream.{waits, look_at, look, parse_loop, parse_frames}
use cpp_chat_channel.Comm.Stream.Fuel.{
  Look-cases, look-skips, look-frame, parse_loop-waits, parse_loop-fails, parse_loop-skips,
  parse_loop-frame, skips-fuel, frame-fuel, parse_loop_fuel,
}

look_at-grows : (h : Option ℕ) (n m : ℕ) → look_at h n ≢ waits → n ≤ m → look_at h m ≡ look_at h n
unfolding look_at
look_at-grows none n m h le = refl
look_at-grows (some len) n m h le = ground arith

-- What is found does not change when more bytes come, unless it was waited for them.
look-append : (acc more : Bytes) → look acc ≢ waits → look (acc ++ more) ≡ look acc
unfolding look
look-append acc more h = ground (
  arith,
  length-append acc more,
  take-append 4 acc more,
  look_at-grows (header_length (take 4 acc)) (length acc) (length (acc ++ more)),
)

-- The loop taken up again when more bytes have come.
resume : ℕ → Bytes → Outcome (List Bytes) × Bytes → Outcome (List Bytes) × Bytes
resume f more (ok frames, rest) = parse_loop f frames (rest ++ more)
resume f more (throw e, rest) = (throw e, rest ++ more)
resume f more (hangs, rest) = (hangs, rest)

take_payload :
    (len : ℕ) (acc more : Bytes)
    → 4 + len ≤ length acc
    → take len (drop 4 (acc ++ more)) ≡ take len (drop 4 acc)
take_payload len acc more h =
    rw (drop-append 4 acc more (omega arith))
      (take-append len (drop 4 acc) more (omega (arith, length-drop 4 acc)))

-- What is left of the longer text after a round fits the fuel that is left.
dropped_fits :
    (n g : ℕ) (acc more : Bytes)
    → 0 < n
    → n ≤ length acc
    → length (acc ++ more) < suc g
    → length (drop n acc ++ more) < g
dropped_fits n g acc more p h lt =
    omega (arith, length-append acc more, length-append (drop n acc) more, length-drop n acc)

-- One round on both sides, by its equation `step` on the shorter text and `grown` on the longer one.
round-append :
    (f g n : ℕ) (frames frames' : List Bytes) (acc more : Bytes)
    → 0 < n
    → n ≤ length acc
    → length (acc ++ more) < suc g
    → parse_loop (suc f) frames acc ≡ parse_loop f frames' (drop n acc)
    → parse_loop (suc g) frames (acc ++ more) ≡ parse_loop g frames' (drop n (acc ++ more))
    → parse_loop (suc g) frames' (drop n acc ++ more)
      ≡ resume (suc g) more (parse_loop f frames' (drop n acc))
    → parse_loop (suc g) frames (acc ++ more) ≡ resume (suc g) more (parse_loop (suc f) frames acc)
round-append f g n frames frames' acc more p h lt step grown ih =
    let fits = dropped_fits n g acc more p h lt in
    rw step (
      grown
      ∙ ap (parse_loop g frames') (drop-append n acc more h)
      ∙ parse_loop_fuel g (suc g) frames' (drop n acc ++ more) fits (omega arith)
      ∙ ih)

parse_loop-append :
    (f g : ℕ) (frames : List Bytes) (acc more : Bytes)
    → length acc < f
    → length (acc ++ more) < g
    → parse_loop g frames (acc ++ more) ≡ resume g more (parse_loop f frames acc)
unfolding resume
parse_loop-append zero g frames acc more hf hg = absurd (omega arith)
parse_loop-append (suc f) zero frames acc more hf hg = absurd (omega arith)
parse_loop-append (suc f) (suc g) frames acc more hf hg = elim (Look-cases (look acc)) [
  | inl e ↦ rw (parse_loop-waits f frames acc e)
  | inr (inl (x, e)) ↦
      rw (parse_loop-fails f frames acc x e)
        (parse_loop-fails g frames (acc ++ more) x (look-append acc more (λ w. cc) ∙ e))
  | inr (inr (inl e)) ↦
      let enough = (look-skips acc e).0 in
      let fits = dropped_fits 4 g acc more (omega arith) enough hg in
      round-append f g 4 frames frames acc more (omega arith) enough hg
        (parse_loop-skips f frames acc e)
        (parse_loop-skips g frames (acc ++ more) (look-append acc more (λ w. cc) ∙ e))
        (parse_loop-append f (suc g) frames (drop 4 acc) more (skips-fuel f acc e hf) (omega arith))
  | inr (inr (inr (len, e))) ↦
      let enough = (look-frame acc len e).3 in
      let fits = dropped_fits (4 + len) g acc more (omega arith) enough hg in
      round-append f g (4 + len) frames (frames ++ take len (drop 4 acc) ∷ []) acc more
        (omega arith) enough hg (parse_loop-frame f frames acc len e)
        (subst
          (λ payload.
            parse_loop (suc g) frames (acc ++ more)
            ≡ parse_loop g (frames ++ payload ∷ []) (drop (4 + len) (acc ++ more)))
          (take_payload len acc more enough)
          (parse_loop-frame g frames (acc ++ more) len (look-append acc more (λ w. cc) ∙ e)))
        (parse_loop-append f (suc g) _ (drop (4 + len) acc) more (frame-fuel f len acc e hf)
          (omega arith))
]

-- The frames found before go in front.
pub prepend : List Bytes → Outcome (List Bytes) × Bytes → Outcome (List Bytes) × Bytes
prepend frames (ok found, rest) = (ok (frames ++ found), rest)
prepend frames (throw e, rest) = (throw e, rest)
prepend frames (hangs, rest) = (hangs, rest)

parse_loop-prepend :
    (f : ℕ) (frames found : List Bytes) (acc : Bytes)
    → length acc < f
    → parse_loop f (frames ++ found) acc ≡ prepend frames (parse_loop f found acc)
unfolding prepend
parse_loop-prepend zero frames found acc h = absurd (omega arith)
parse_loop-prepend (suc f) frames found acc h = elim (Look-cases (look acc)) [
  | inl e ↦ rw (parse_loop-waits f found acc e) (parse_loop-waits f _ acc e)
  | inr (inl (x, e)) ↦ rw (parse_loop-fails f found acc x e) (parse_loop-fails f _ acc x e)
  | inr (inr (inl e)) ↦ rw (parse_loop-skips f found acc e) (
      parse_loop-skips f _ acc e
      ∙ parse_loop-prepend f frames found (drop 4 acc) (skips-fuel f acc e h))
  | inr (inr (inr (len, e))) ↦ rw (parse_loop-frame f found acc len e) (
      parse_loop-frame f _ acc len e
      ∙ ap (λ fs. parse_loop f fs (drop (4 + len) acc)) (append_assoc frames found _)
      ∙ parse_loop-prepend f frames (found ++ take len (drop 4 acc) ∷ []) (drop (4 + len) acc)
          (frame-fuel f len acc e h))
]

-- What a read brings later: the frames of the first bytes, then those of what was left with the
-- later bytes; a throw stays a throw.
unfoldable pub after_chunk : Bytes → Outcome (List Bytes) × Bytes → Outcome (List Bytes) × Bytes
unfolding prepend
after_chunk more (ok frames, rest) = prepend frames (parse_frames (rest ++ more))
after_chunk more (throw e, rest) = (throw e, rest ++ more)
after_chunk more (hangs, rest) = (hangs, rest)

-- The loop leaves no more bytes than it had.
parse_loop_shrinks :
    (f : ℕ) (frames : List Bytes) (acc : Bytes)
    → length acc < f
    → length (parse_loop f frames acc).1 ≤ length acc
parse_loop_shrinks zero frames acc h = absurd (omega arith)
parse_loop_shrinks (suc f) frames acc h = elim (Look-cases (look acc)) [
  | inl e ↦ rw (parse_loop-waits f frames acc e) (omega arith)
  | inr (inl (x, e)) ↦ rw (parse_loop-fails f frames acc x e) (omega arith)
  | inr (inr (inl e)) ↦ rw (parse_loop-skips f frames acc e) (
      omega
        (arith, parse_loop_shrinks f frames (drop 4 acc) (skips-fuel f acc e h), length-drop 4 acc))
  | inr (inr (inr (len, e))) ↦ rw (parse_loop-frame f frames acc len e) (
      omega (
        arith,
        parse_loop_shrinks f (frames ++ take len (drop 4 acc) ∷ []) (drop (4 + len) acc)
            (frame-fuel f len acc e h),
        length-drop (4 + len) acc,
      ))
]

resume-after_chunk :
    (g : ℕ) (more : Bytes) (r : Outcome (List Bytes) × Bytes)
    → length (r.1 ++ more) < g
    → resume g more r ≡ after_chunk more r
unfolding resume after_chunk parse_frames
resume-after_chunk g more (ok frames, rest) h =
    parse_loop_fuel g (suc (length (rest ++ more))) frames (rest ++ more) h (omega arith)
    ∙ ap (λ fs. parse_loop (suc (length (rest ++ more))) fs (rest ++ more))
        (sym (append-nil frames))
    ∙ parse_loop-prepend (suc (length (rest ++ more))) frames [] (rest ++ more) (omega arith)
resume-after_chunk g more (throw e, rest) h = refl
resume-after_chunk g more (hangs, rest) h = refl

-- Parsing bytes at once is parsing a first part and then the rest of it with the later bytes.
pub parse_frames-append :
    (acc more : Bytes) → parse_frames (acc ++ more) ≡ after_chunk more (parse_frames acc)
unfolding parse_frames
parse_frames-append acc more =
    parse_loop-append (suc (length acc)) (suc (length (acc ++ more))) [] acc more (omega arith)
      (omega arith)
    ∙ resume-after_chunk (suc (length (acc ++ more))) more (parse_loop (suc (length acc)) [] acc) (
        omega (
          arith,
          length-append (parse_loop (suc (length acc)) [] acc).1 more,
          length-append acc more,
          parse_loop_shrinks (suc (length acc)) [] acc (omega arith),
        ))

pub prepend-eq-ok :
    (found frames : List Bytes) (rest : Bytes) (r : Outcome (List Bytes) × Bytes)
    → prepend found r ≡ (ok frames, rest)
    → (later : List Bytes) × (r ≡ (ok later, rest)) × (found ++ later ≡ frames)
unfolding prepend
prepend-eq-ok found frames rest (ok later, r) h = (later, ground arith, ground arith)
prepend-eq-ok found frames rest (throw e, r) h = absurd (ground arith)
prepend-eq-ok found frames rest (hangs, r) h = absurd (ground arith)
