-- ===== src/Tests/Frames.antt =====
-- The framing at concrete inputs.
use mathlib.Core.List.{flatten}
use cpp_chat_channel.Base.{
  ◌+◌, ◌≡◌, ◌<◌, refl, ap, ◌∙◌, ◌⊎◌, List, [], ◌∷◌, ◌++◌, arith, Bytes, codes, length,
}
use cpp_chat_channel.Effects.{Exn, ok, throw}
use cpp_chat_channel.Comm.Header.{header}
use cpp_chat_channel.Comm.Stream.{waits, fails, look, parse_frames, max_frame_size}
use cpp_chat_channel.Comm.Stream.Fuel.{look-nil, parse_frames-Ended}
use cpp_chat_channel.Comm.Stream.Chunks.{feed, feed-flatten}
use cpp_chat_channel.Comm.Stream.RoundTrip.{
  encode, encode_all, parse_frames-encode_all, feed-encode_all,
}

abbrev hello : List Bytes
hello = codes "hi" ∷ codes "abc" ∷ []

-- The two frames in three reads, cut inside a header and inside a payload.
abbrev reads : List Bytes
reads = codes "000" ∷ codes "2hi0003a" ∷ codes "bc" ∷ []

reads_spell : flatten reads ≡ encode_all hello
unfolding flatten encode_all encode header
reads_spell = refl

feed-encode_all_example : feed reads [] ≡ (ok hello, [])
feed-encode_all_example = feed-encode_all reads hello (omega arith) reads_spell

parsed : parse_frames ([] ++ flatten reads) ≡ (ok hello, [])
parsed = ap parse_frames reads_spell ∙ parse_frames-encode_all hello (omega arith)

feed-flatten_example : feed reads [] ≡ (ok hello, [])
feed-flatten_example = feed-flatten reads [] hello [] look-nil parsed

parse_frames-Ended_example :
    ((frames : List Bytes) × (rest : Bytes) × (parse_frames (codes "0002hi00") ≡ (ok frames, rest))
      × (look rest ≡ waits)
      × (length rest < 4 + max_frame_size))
    ⊎ ((e : Exn) × (rest : Bytes) × (parse_frames (codes "0002hi00") ≡ (throw e, rest))
        × (look rest ≡ fails e))
parse_frames-Ended_example = parse_frames-Ended (codes "0002hi00")
