-- ===== src/Comm/Stream/RoundTrip.antt =====
-- What `send_frame` writes, read by `recv_frame` (src/libs/communication.cpp).
use mathlib.Core.List.{flatten}
use cpp_chat_channel.Base.{
  ℕ, zero, suc, ◌+◌, ◌≤◌, ◌<◌, ◌≡◌, refl, sym, ap, subst, ◌∙◌, List, [], ◌∷◌, ◌++◌, arith, Bytes,
  length, take, drop, All, length-append, take-append, drop-append, take_all, drop_all,
  append_assoc, append-nil,
}
use cpp_chat_channel.Effects.{ok}
use cpp_chat_channel.Comm.Header.{header, header-digits4}
use cpp_chat_channel.Comm.Header.RoundTrip.{header_length-header}
use cpp_chat_channel.Comm.Stream.{frame, look_at, look, parse_loop, parse_frames, max_frame_size}
use cpp_chat_channel.Comm.Stream.Fuel.{look-nil, parse_loop-waits, parse_loop-frame, frame-fuel}
use cpp_chat_channel.Comm.Stream.Chunks.{feed, feed-flatten}

-- The bytes of a frame: its header and its payload.
unfoldable pub encode : Bytes → Bytes
encode payload = header (length payload) ++ payload

-- The payloads that `send_frame` sends: neither empty nor too large.
abbrev pub IsPayload : Bytes → Type 0
IsPayload p = (0 < length p) × (length p ≤ max_frame_size)

unfoldable pub encode_all : List Bytes → Bytes
encode_all [] = []
encode_all (p ∷ ps) = encode p ++ encode_all ps

pub length-header : (n : ℕ) → n < 65536 → length (header n) ≡ 4
length-header n h = rw (header-digits4 n h)

-- A cut right behind the first part.
take_first : (n : ℕ) (xs ys : Bytes) → length xs ≡ n → take n (xs ++ ys) ≡ xs
take_first n xs ys h = take-append n xs ys (omega arith) ∙ take_all n xs (sym h)

drop_first : (n : ℕ) (xs ys : Bytes) → length xs ≡ n → drop n (xs ++ ys) ≡ ys
drop_first n xs ys h =
    drop-append n xs ys (omega arith) ∙ ap (λ zs. zs ++ ys) (drop_all n xs (sym h))

module _ (p more : Bytes) (h : IsPayload p) where
  header_fits : length (header (length p)) ≡ 4
  header_fits = length-header (length p) (omega arith)

  look-encode : look (encode p ++ more) ≡ frame (length p)
  unfolding look look_at encode
  look-encode = rw (append_assoc (header (length p)) p more) (
      rw (take_first 4 (header (length p)) (p ++ more) header_fits) (
        ground (
          arith,
          header_length-header (length p),
          length-append (header (length p)) (p ++ more),
          length-append p more,
          header_fits,
        )))

  payload_back : take (length p) (drop 4 (encode p ++ more)) ≡ p
  unfolding encode
  payload_back =
      rw
        (
          append_assoc (header (length p)) p more,
          drop_first 4 (header (length p)) (p ++ more) header_fits,
        )
        (take_first (length p) p more refl)

  rest_back : drop (4 + length p) (encode p ++ more) ≡ more
  unfolding encode
  rest_back =
      drop_first (4 + length p) (header (length p) ++ p) more
        (omega (arith, length-append (header (length p)) p, header_fits))

parse_loop-encode_all :
    (f : ℕ) (frames ps : List Bytes)
    → All IsPayload ps
    → length (encode_all ps) < f
    → parse_loop f frames (encode_all ps) ≡ (ok (frames ++ ps), [])
unfolding encode_all
parse_loop-encode_all zero frames ps a h = absurd (omega arith)
parse_loop-encode_all (suc f) frames [] a h =
    parse_loop-waits f frames [] look-nil ∙ ap (λ fs. (ok fs, [])) (sym (append-nil frames))
parse_loop-encode_all (suc f) frames (p ∷ ps) a h =
    let seen = look-encode p (encode_all ps) a.0 in
    let fits = frame-fuel f (length p) (encode p ++ encode_all ps) seen h in
    parse_loop-frame f frames (encode p ++ encode_all ps) (length p) seen
    ∙ ap (λ q. parse_loop f (frames ++ q ∷ []) (drop (4 + length p) (encode p ++ encode_all ps)))
        (payload_back p (encode_all ps) a.0)
    ∙ ap (parse_loop f (frames ++ p ∷ [])) (rest_back p (encode_all ps) a.0)
    ∙ parse_loop-encode_all f (frames ++ p ∷ []) ps a.1
        (subst (λ r. length r < f) (rest_back p (encode_all ps) a.0) fits)
    ∙ ap (λ fs. (ok fs, [])) (append_assoc frames (p ∷ []) ps)

-- The frames of payloads that may be sent are read back, and no byte is left.
pub parse_frames-encode_all :
    (ps : List Bytes) → All IsPayload ps → parse_frames (encode_all ps) ≡ (ok ps, [])
unfolding parse_frames
parse_frames-encode_all ps a =
    parse_loop-encode_all (suc (length (encode_all ps))) [] ps a (omega arith)

-- However the frames of sendable payloads are cut into reads, the reads yield the payloads in
-- order and leave no byte.
pub feed-encode_all :
    (cs ps : List Bytes) → All IsPayload ps → flatten cs ≡ encode_all ps → feed cs [] ≡ (ok ps, [])
feed-encode_all cs ps a e =
    feed-flatten cs [] ps [] look-nil (ap parse_frames e ∙ parse_frames-encode_all ps a)
