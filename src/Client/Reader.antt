-- ===== src/Client/Reader.antt =====
-- The clients' `recv_frames` (src/client/client.cpp, src/client/client_win.cpp) against the servers'
-- `recv_frame` (src/libs/communication.cpp).
use mathlib.Core.List.{flatten}
use cpp_chat_channel.Base.{
  ℕ, zero, suc, ◌+◌, ◌-◌, ◌%◌, ◌^◌, ◌≡◌, refl, sym, ap, ◌∙◌, inl, inr, Option, none, some, List, [],
  ◌∷◌, ◌++◌, Bool, true, false, arith, if◌then◌else◌, Bytes, codes, length, take, drop, All,
}
use cpp_chat_channel.Effects.{Exn, Outcome, ok, throw, hangs, M, bind_outcome, frame_too_large}
use cpp_chat_channel.Comm.Header.{header_length, header_length_negative}
use cpp_chat_channel.Comm.Stream.{
  waits, fails, skips, frame, look_at, look, parse_loop, parse_frames,
}
use cpp_chat_channel.Comm.Stream.Fuel.{
  Look-cases, look-frame, look-skips, parse_loop-waits, parse_loop-fails, parse_loop-skips,
  parse_loop-frame, parse_frames-Ended,
}
use cpp_chat_channel.Comm.Stream.Chunks.{feed}
use cpp_chat_channel.Comm.Stream.RoundTrip.{IsPayload, encode_all, feed-encode_all}
use cpp_chat_channel.Client.Frames.{
  pending, whole, peek_at, peek, take_loop, take_frames, take_more,
}

peek_at-waits : (h : Option ℕ) (n : ℕ) → look_at h n ≡ waits → peek_at h n ≡ pending
unfolding peek_at look_at
peek_at-waits none n e = ground arith
peek_at-waits (some len) n e = ground arith

peek-waits : (acc : Bytes) → look acc ≡ waits → peek acc ≡ pending
unfolding peek look
peek-waits acc e = ground (arith, peek_at-waits (header_length (take 4 acc)) (length acc))

peek-frame : (acc : Bytes) (len : ℕ) → look acc ≡ frame len → peek acc ≡ whole len
unfolding peek peek_at
peek-frame acc len e = let (h, _, small, fits) = look-frame acc len e in rw h (ground arith)

peek-skips : (acc : Bytes) → look acc ≡ skips → peek acc ≡ whole 0
unfolding peek peek_at
peek-skips acc e = let (fits, h) = look-skips acc e in rw h (ground arith)

-- One `recv_frames` after the other, for the bytes that each reads.
unfoldable pub read_all : {S : Type 0} → (Bytes → M S Bool) → List Bytes → M (Bytes × S) Bool
unfolding take_more
read_all display [] s = (ok true, s)
read_all display (c ∷ cs) s =
    bind_outcome (take_more display c s)
      (λ more t. if more then read_all display cs t else (ok false, t))

module _ (c : Bytes) (cs : List Bytes) (acc : Bytes) where
  feed-after :
      (found : List Bytes) (mid : Bytes)
      → parse_frames (acc ++ c) ≡ (ok found, mid)
      → feed (c ∷ cs) acc ≡ bind_outcome (feed cs mid) (λ later s. (ok (found ++ later), s))
  unfolding feed
  feed-after found mid e = rw (e, feed)

  -- The later frames of a sequence of reads whose first one has been parsed.
  feed-eq-ok :
      (frames found : List Bytes) (mid rest : Bytes)
      → parse_frames (acc ++ c) ≡ (ok found, mid)
      → feed (c ∷ cs) acc ≡ (ok frames, rest)
      → (later : List Bytes) × (feed cs mid ≡ (ok later, rest)) × (found ++ later ≡ frames)
  unfolding feed
  feed-eq-ok frames found mid rest e h = split (feed cs mid) refl (sym (feed-after found mid e) ∙ h)
    where
      split :
          (r : Outcome (List Bytes) × Bytes)
          → feed cs mid ≡ r
          → bind_outcome r (λ later s. (ok (found ++ later), s)) ≡ (ok frames, rest)
          → (later : List Bytes) × (feed cs mid ≡ (ok later, rest)) × (found ++ later ≡ frames)
      split (ok later, t) p q = (later, p ∙ ap (λ u. (ok later, u)) (ground arith), ground arith)
      split (throw x, t) p q = absurd (ground arith)
      split (hangs, t) p q = absurd (ground arith)

  feed-throws :
      (mid : Bytes) (x : Exn)
      → parse_frames (acc ++ c) ≡ (throw x, mid)
      → feed (c ∷ cs) acc ≡ (throw x, mid)
  unfolding feed
  feed-throws mid x e = rw (e, feed)

fits_word : (acc : Bytes) (len : ℕ) → look acc ≡ frame len → (4 + len) % 2 ^ 32 ≡ 4 + len
fits_word acc len e = let (_, _, small, _) = look-frame acc len e in omega arith

module _ {S : Type 0} (f : Bytes → S → S) where
  -- Showing never stops the loop.
  abbrev pub shows : Bytes → M S Bool
  shows payload s = (ok true, f payload s)

  -- The payloads shown one after the other.
  abbrev pub show_all : List Bytes → S → S
  show_all [] s = s
  show_all (p ∷ ps) s = show_all ps (f p s)

  show_all-append :
      (ps qs : List Bytes) (s : S) → show_all (ps ++ qs) s ≡ show_all qs (show_all ps s)
  show_all-append [] qs s = refl
  show_all-append (p ∷ ps) qs s = show_all-append ps qs (f p s)

  take_loop-pending :
      (n : ℕ) (acc : Bytes) (s : S)
      → peek acc ≡ pending
      → take_loop shows (suc n) (acc, s) ≡ (ok true, (acc, s))
  unfolding take_loop
  take_loop-pending n acc s e = rw (e, take_loop)

  take_loop-whole :
      (n : ℕ) (acc : Bytes) (s : S) (len : ℕ)
      → peek acc ≡ whole len
      → take_loop shows (suc n) (acc, s)
        ≡ take_loop shows n (drop ((4 + len) % 2 ^ 32) acc, f (take len (drop 4 acc)) s)
  unfolding take_loop
  take_loop-whole n acc s len e = rw (e, take_loop)

  -- The state of a client for what the server's loop ends with.
  abbrev after : S → Outcome (List Bytes) × Bytes → Outcome Bool × (Bytes × S)
  after s (ok frames, rest) = (ok true, (rest, show_all frames s))
  after s (throw e, rest) = (throw e, (rest, s))
  after s (hangs, rest) = (hangs, (rest, s))

  module _ (ignores : (s : S) → f [] s ≡ s) where
    take_loop-parse_loop :
        (n : ℕ) (found frames : List Bytes) (acc rest : Bytes) (s : S)
        → parse_loop n found acc ≡ (ok frames, rest)
        → take_loop shows n (acc, show_all found s) ≡ (ok true, (rest, show_all frames s))
    unfolding parse_loop take_loop
    take_loop-parse_loop zero found frames acc rest s h = absurd (ground arith)
    take_loop-parse_loop (suc n) found frames acc rest s h = elim (Look-cases (look acc)) [
      | inl e ↦
          take_loop-pending n acc _ (peek-waits acc e)
          ∙ ap (after s) (sym (parse_loop-waits n found acc e) ∙ h)
      | inr (inl (x, e)) ↦ absurd (ground (arith, parse_loop-fails n found acc x e))
      | inr (inr (inl e)) ↦
          take_loop-whole n acc _ 0 (peek-skips acc e)
          ∙ ap (λ t. take_loop shows n (drop 4 acc, t)) (ignores _)
          ∙ take_loop-parse_loop n found frames (drop 4 acc) rest s
              (sym (parse_loop-skips n found acc e) ∙ h)
      | inr (inr (inr (len, e))) ↦
          let p = take len (drop 4 acc) in
          take_loop-whole n acc _ len (peek-frame acc len e)
          ∙ ap (λ i. take_loop shows n (drop i acc, f p (show_all found s))) (fits_word acc len e)
          ∙ ap (λ t. take_loop shows n (drop (4 + len) acc, t))
              (sym (show_all-append found (p ∷ []) s))
          ∙ take_loop-parse_loop n (found ++ p ∷ []) frames (drop (4 + len) acc) rest s
              (sym (parse_loop-frame n found acc len e) ∙ h)
    ]

    -- Where the server's loop returns, the client's loop goes on too: it shows the same payloads in the
    -- same order and leaves the same bytes, if showing an empty payload changes nothing.
    pub take_frames-parse_frames :
        (acc rest : Bytes) (frames : List Bytes) (s : S)
        → parse_frames acc ≡ (ok frames, rest)
        → take_frames shows (acc, s) ≡ (ok true, (rest, show_all frames s))
    unfolding take_frames parse_frames
    take_frames-parse_frames acc rest frames s h =
        take_loop-parse_loop (suc (length acc)) [] frames acc rest s h

    read_all-feed :
        (cs : List Bytes) (acc rest : Bytes) (frames : List Bytes) (s : S)
        → feed cs acc ≡ (ok frames, rest)
        → read_all shows cs (acc, s) ≡ (ok true, (rest, show_all frames s))
    unfolding read_all feed take_more
    read_all-feed [] acc rest frames s h = ap (after s) h
    read_all-feed (c ∷ cs) acc rest frames s h = elim (parse_frames-Ended (acc ++ c)) [
      | inl (found, mid, e, _, _) ↦
          let (later, p, q) = feed-eq-ok c cs acc frames found mid rest e h in
          rw (take_frames-parse_frames (acc ++ c) mid found s e) (
            read_all-feed cs mid rest later (show_all found s) p
            ∙ ap (λ t. (ok true, (rest, t))) (sym (show_all-append found later s))
            ∙ ap (λ ps. (ok true, (rest, show_all ps s))) q)
      | inr (x, mid, e, _) ↦ absurd (ground (arith, feed-throws c cs acc mid x e))
    ]

    -- The frames that `send_frame` of the servers writes for payloads, however they are cut into reads,
    -- are shown by a client in order, whole and once each, and leave no byte.
    pub read_all-encode_all :
        (cs ps : List Bytes) (s : S)
        → All IsPayload ps
        → flatten cs ≡ encode_all ps
        → read_all shows cs ([], s) ≡ (ok true, ([], show_all ps s))
    read_all-encode_all cs ps s a e = read_all-feed cs [] [] ps s (feed-encode_all cs ps a e)

  peek_wrapped : (rest : Bytes) → peek (codes "-004" ++ rest) ≡ whole (2 ^ 32 - 4)
  unfolding peek peek_at
  peek_wrapped rest = rw header_length_negative (ground arith)

  look_wrapped : (rest : Bytes) → look (codes "-004" ++ rest) ≡ fails frame_too_large
  unfolding look look_at
  look_wrapped rest = rw header_length_negative (ground arith)

  stuck : (rest : Bytes) (n : ℕ) (s : S) → (take_loop shows n (codes "-004" ++ rest, s)).0 ≡ hangs
  unfolding take_loop
  stuck rest zero s = refl
  stuck rest (suc n) s =
      ap (λ r. r.0) (take_loop-whole n (codes "-004" ++ rest) s (2 ^ 32 - 4) (peek_wrapped rest))
      ∙ stuck rest n _

  -- A header `-004` wraps `4 + len` to 0, so that nothing is erased: the loop of a client goes on for
  -- ever, while the servers' loop throws.
  pub take_loop_stuck :
      (rest : Bytes)
      → ((n : ℕ) (s : S) → (take_loop shows n (codes "-004" ++ rest, s)).0 ≡ hangs)
        × (parse_frames (codes "-004" ++ rest) ≡ (throw frame_too_large, codes "-004" ++ rest))
  unfolding parse_frames
  take_loop_stuck rest =
      (stuck rest, parse_loop-fails _ [] (codes "-004" ++ rest) frame_too_large (look_wrapped rest))
