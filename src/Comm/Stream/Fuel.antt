-- ===== src/Comm/Stream/Fuel.antt =====
-- The loop ends, and more fuel changes nothing (src/libs/communication.cpp).
use cpp_chat_channel.Base.{
  ℕ, zero, suc, ◌+◌, ◌≤◌, ◌<◌, ◌≡◌, refl, sym, ◌∙◌, ◌⊎◌, inl, inr, List, [], ◌∷◌, ◌++◌, arith,
  nat_eq, Bytes, length, take, drop, length-drop, Option, none, some,
}
use cpp_chat_channel.Effects.{Exn, Outcome, ok, throw, hangs}
use cpp_chat_channel.Comm.Header.{header_length}
use cpp_chat_channel.Comm.Stream.{
  Look, waits, fails, skips, frame, look_at, look, parse_loop, parse_frames, max_frame_size,
}

-- The round's outcome with its equation.
pub Look-cases :
    (l : Look) → (l ≡ waits) ⊎ ((e : Exn) × (l ≡ fails e)) ⊎ (l ≡ skips) ⊎ ((n : ℕ) × (l ≡ frame n))
Look-cases waits = inl refl
Look-cases (fails e) = inr (inl (e, refl))
Look-cases skips = inr (inr (inl refl))
Look-cases (frame n) = inr (inr (inr (n, refl)))

look_at-skips : (h : Option ℕ) (n : ℕ) → look_at h n ≡ skips → h ≡ some 0
unfolding look_at
look_at-skips none n e = ground arith
look_at-skips (some len) n e = ground arith

look_at-frame :
    (h : Option ℕ) (n len : ℕ)
    → look_at h n ≡ frame len
    → (h ≡ some len) × (0 < len) × (len ≤ max_frame_size) × (4 + len ≤ n)
unfolding look_at
look_at-frame none n len e = ground arith
look_at-frame (some k) n len e = ground arith

pub look-skips :
    (acc : Bytes) → look acc ≡ skips → (4 ≤ length acc) × (header_length (take 4 acc) ≡ some 0)
unfolding look
look-skips acc e = ground (arith, look_at-skips (header_length (take 4 acc)) (length acc))

pub look-frame :
    (acc : Bytes) (len : ℕ)
    → look acc ≡ frame len
    → (header_length (take 4 acc) ≡ some len)
      × (0 < len)
      × (len ≤ max_frame_size)
      × (4 + len ≤ length acc)
unfolding look
look-frame acc len e = ground (arith, look_at-frame (header_length (take 4 acc)) (length acc) len)

pub look-nil : look [] ≡ waits
unfolding look
look-nil = refl

pub look-waits : (acc : Bytes) → look acc ≡ waits → length acc < 4 + max_frame_size
unfolding look look_at
look-waits acc e = ground arith

-- One lemma for each outcome of a round.
module _ (f : ℕ) (frames : List Bytes) (acc : Bytes) where
  pub parse_loop-waits : look acc ≡ waits → parse_loop (suc f) frames acc ≡ (ok frames, acc)
  unfolding parse_loop
  parse_loop-waits e = rw (e, parse_loop)

  pub parse_loop-fails :
      (x : Exn) → look acc ≡ fails x → parse_loop (suc f) frames acc ≡ (throw x, acc)
  unfolding parse_loop
  parse_loop-fails x e = rw (e, parse_loop)

  pub parse_loop-skips :
      look acc ≡ skips → parse_loop (suc f) frames acc ≡ parse_loop f frames (drop 4 acc)
  unfolding parse_loop
  parse_loop-skips e = rw (e, parse_loop)

  pub parse_loop-frame :
      (len : ℕ)
      → look acc ≡ frame len
      → parse_loop (suc f) frames acc
        ≡ parse_loop f (frames ++ take len (drop 4 acc) ∷ []) (drop (4 + len) acc)
  unfolding parse_loop
  parse_loop-frame len e = rw (e, parse_loop)

-- What a round erases, against the fuel that it takes.
pub skips-fuel :
    (f : ℕ) (acc : Bytes) → look acc ≡ skips → length acc < suc f → length (drop 4 acc) < f
skips-fuel f acc e h = omega (arith, length-drop 4 acc, look-skips acc e)

pub frame-fuel :
    (f len : ℕ) (acc : Bytes)
    → look acc ≡ frame len
    → length acc < suc f
    → length (drop (4 + len) acc) < f
frame-fuel f len acc e h = omega (arith, length-drop (4 + len) acc, look-frame acc len e)

-- More fuel than bytes: the amount does not matter.
pub parse_loop_fuel :
    (f g : ℕ) (frames : List Bytes) (acc : Bytes)
    → length acc < f
    → length acc < g
    → parse_loop f frames acc ≡ parse_loop g frames acc
parse_loop_fuel zero g frames acc hf hg = absurd (omega arith)
parse_loop_fuel (suc f) zero frames acc hf hg = absurd (omega arith)
parse_loop_fuel (suc f) (suc g) frames acc hf hg = elim (Look-cases (look acc)) [
  | inl e ↦ parse_loop-waits f frames acc e ∙ sym (parse_loop-waits g frames acc e)
  | inr (inl (x, e)) ↦ parse_loop-fails f frames acc x e ∙ sym (parse_loop-fails g frames acc x e)
  | inr (inr (inl e)) ↦
      parse_loop-skips f frames acc e
      ∙ parse_loop_fuel f g frames (drop 4 acc) (skips-fuel f acc e hf) (skips-fuel g acc e hg)
      ∙ sym (parse_loop-skips g frames acc e)
  | inr (inr (inr (len, e))) ↦
      parse_loop-frame f frames acc len e
      ∙ parse_loop_fuel f g (frames ++ take len (drop 4 acc) ∷ []) (drop (4 + len) acc)
          (frame-fuel f len acc e hf) (frame-fuel g len acc e hg)
      ∙ sym (parse_loop-frame g frames acc len e)
]

-- What the loop ends with, the bytes that it leaves among it: it never runs out of fuel, and after a
-- return the bytes left hold no whole frame.
abbrev pub Ended : Outcome (List Bytes) × Bytes → Type 0
Ended (ok frames, rest) = look rest ≡ waits
Ended (throw e, rest) = look rest ≡ fails e
Ended (hangs, rest) = ⊥

pub parse_loop-Ended :
    (f : ℕ) (frames : List Bytes) (acc : Bytes) → length acc < f → Ended (parse_loop f frames acc)
parse_loop-Ended zero frames acc h = absurd (omega arith)
parse_loop-Ended (suc f) frames acc h = elim (Look-cases (look acc)) [
  | inl e ↦ rw (parse_loop-waits f frames acc e) e
  | inr (inl (x, e)) ↦ rw (parse_loop-fails f frames acc x e) e
  | inr (inr (inl e)) ↦
      rw (parse_loop-skips f frames acc e)
        (parse_loop-Ended f frames (drop 4 acc) (skips-fuel f acc e h))
  | inr (inr (inr (len, e))) ↦
      rw (parse_loop-frame f frames acc len e)
        (parse_loop-Ended f _ (drop (4 + len) acc) (frame-fuel f len acc e h))
]

-- `recv_frame`'s loop ends on every input, by a return or by a throw. After a return the buffer
-- waits for more bytes and is shorter than the longest frame with its header; after a throw the
-- header that made it throw is still in front.
pub parse_frames-Ended :
    (acc : Bytes)
    → ((frames : List Bytes) × (rest : Bytes) × (parse_frames acc ≡ (ok frames, rest))
        × (look rest ≡ waits)
        × (length rest < 4 + max_frame_size))
      ⊎ ((e : Exn) × (rest : Bytes) × (parse_frames acc ≡ (throw e, rest)) × (look rest ≡ fails e))
unfolding parse_frames
parse_frames-Ended acc =
    go (parse_loop (suc (length acc)) [] acc) refl (parse_loop-Ended _ [] acc (omega arith))
  where
    go :
        (r : Outcome (List Bytes) × Bytes)
        → parse_frames acc ≡ r
        → Ended r
        → ((frames : List Bytes) × (rest : Bytes) × (parse_frames acc ≡ (ok frames, rest))
            × (look rest ≡ waits)
            × (length rest < 4 + max_frame_size))
          ⊎ ((e : Exn) × (rest : Bytes) × (parse_frames acc ≡ (throw e, rest))
              × (look rest ≡ fails e))
    go (ok frames, rest) e w = inl (frames, rest, e, w, look-waits rest w)
    go (throw x, rest) e w = inr (x, rest, e, w)
    go (hangs, rest) e w = absurd w
