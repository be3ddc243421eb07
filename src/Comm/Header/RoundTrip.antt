-- ===== src/Comm/Header/RoundTrip.antt =====
-- What is read from a header that the program wrote (src/libs/communication.cpp).
use cpp_chat_channel.Base.{
  ℕ, ◌+◌, ◌*◌, ◌/◌, ◌%◌, ◌<◌, ◌≡◌, false, ◌==◌, nat_eq, some, none, [], ◌∷◌, arith, Bytes,
}
use cpp_chat_channel.Comm.Header.{
  is_space, hex_value, in_range, hex_digits, skip_prefix, skip_spaces, magnitude, signed, stoul,
  header_length, hex_char, header, header-digits4,
}

hex_value-hex_char : (d : ℕ) → d < 16 → hex_value (hex_char d) ≡ some d
unfolding hex_value hex_char
hex_value-hex_char d h = ground arith

is_space-hex_char : (d : ℕ) → d < 16 → is_space (hex_char d) ≡ false
unfolding is_space hex_char
is_space-hex_char d h = ground arith

-- A digit is no sign and no letter of a prefix.
hex_char_plain :
    (d : ℕ)
    → d < 16
    → ((hex_char d == b'-') ≡ false)
      × ((hex_char d == b'+') ≡ false)
      × ((hex_char d == b'x') ≡ false)
      × ((hex_char d == b'X') ≡ false)
unfolding hex_char
hex_char_plain d h = ground arith

skip_spaces_lem : (c : ℕ) (s : Bytes) → is_space c ≡ false → skip_spaces (c ∷ s) ≡ c ∷ s
unfolding skip_spaces
skip_spaces_lem c s h = ground arith

skip_prefix_lem :
    (a d : ℕ) (s : Bytes) → d < 16 → skip_prefix (a ∷ hex_char d ∷ s) ≡ a ∷ hex_char d ∷ s
unfolding skip_prefix
skip_prefix_lem a d s h = ground (arith, hex_char_plain d h)

hex_digits_first :
    (d : ℕ) (s : Bytes) → d < 16 → hex_digits (hex_char d ∷ s) none ≡ hex_digits s (some d)
unfolding hex_digits
hex_digits_first d s h = ground (arith, hex_value-hex_char d h)

hex_digits_next :
    (d n : ℕ) (s : Bytes)
    → d < 16
    → hex_digits (hex_char d ∷ s) (some n) ≡ hex_digits s (some (n * 16 + d))
unfolding hex_digits
hex_digits_next d n s h = ground (arith, hex_value-hex_char d h)

-- The value that four digits spell.
abbrev value4 : ℕ → ℕ → ℕ → ℕ → ℕ
value4 a b c d = ((a * 16 + b) * 16 + c) * 16 + d

magnitude_four :
    (a b c d : ℕ)
    → a < 16
    → b < 16
    → c < 16
    → d < 16
    → magnitude (hex_char a ∷ hex_char b ∷ hex_char c ∷ hex_char d ∷ []) ≡ some (value4 a b c d)
unfolding magnitude
magnitude_four a b c d ha hb hc hd =
    rw
      (
        skip_prefix_lem (hex_char a) b (hex_char c ∷ hex_char d ∷ []) hb,
        hex_digits_first a (hex_char b ∷ hex_char c ∷ hex_char d ∷ []) ha,
        hex_digits_next b a (hex_char c ∷ hex_char d ∷ []) hb,
        hex_digits_next c (a * 16 + b) (hex_char d ∷ []) hc,
        hex_digits_next d ((a * 16 + b) * 16 + c) [] hd,
      )
      (unfold hex_digits in_range in ground arith)

stoul_four :
    (a b c d : ℕ)
    → a < 16
    → b < 16
    → c < 16
    → d < 16
    → stoul (hex_char a ∷ hex_char b ∷ hex_char c ∷ hex_char d ∷ []) ≡ some (value4 a b c d)
unfolding stoul signed
stoul_four a b c d ha hb hc hd =
    rw
      (
        skip_spaces_lem (hex_char a) (hex_char b ∷ hex_char c ∷ hex_char d ∷ [])
            (is_space-hex_char a ha),
        (hex_char_plain a ha).0,
        (hex_char_plain a ha).1,
      )
      (magnitude_four a b c d ha hb hc hd)

-- The header that is written is read as the length.
pub header_length-header : (n : ℕ) → n < 65536 → header_length (header n) ≡ some n
unfolding header_length
header_length-header n h =
    ground (arith, header-digits4 n h, stoul_four (n / 4096) (n / 256 % 16) (n / 16 % 16) (n % 16))
