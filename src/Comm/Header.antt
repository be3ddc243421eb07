-- ===== src/Comm/Header.antt =====
-- The header: `std::stoul(_, nullptr, 16)` reads it and `snprintf("%04x")` writes it
-- (src/libs/communication.cpp).
pub mod RoundTrip
use cpp_chat_channel.Base.{
  ℕ, zero, suc, ◌+◌, ◌-◌, ◌*◌, ◌/◌, ◌%◌, ◌^◌, ◌<◌, ◌≡◌, refl, Bool, true, false, ◌&&◌, ◌||◌, Option,
  none, some, [], ◌∷◌, arith, ltb, leb, ◌==◌, nat_eq, if◌then◌else◌, Bytes, codes, length, take,
}

-- isspace in the C locale
unfoldable pub is_space : ℕ → Bool
is_space c = c == 32 || (leb 9 c && leb c 13)

pub hex_value : ℕ → Option ℕ
hex_value c =
    if leb b'0' c && leb c b'9'
    then some (c - b'0')
    else if leb b'a' c && leb c b'f'
    then some (c - b'a' + 10)
    else if leb b'A' c && leb c b'F'
    then some (c - b'A' + 10)
    else none

-- The digits up to the first byte that is none; `none` if there is no digit.
hex_digits : Bytes → Option ℕ → Option ℕ
hex_digits [] acc = acc
hex_digits (c ∷ s) acc = elim (hex_value c) [
  | none ↦ acc
  | some d ↦ hex_digits s (some (elim acc [ none ↦ d | some n ↦ n * 16 + d ]))
]

is_digit_next : Bytes → Bool
unfolding hex_value
is_digit_next [] = false
is_digit_next (c ∷ s) = elim (hex_value c) [ none ↦ false | some _ ↦ true ]

-- `0x` goes only if a digit follows it.
skip_prefix : Bytes → Bytes
unfolding is_digit_next
skip_prefix [] = []
skip_prefix (a ∷ []) = a ∷ []
skip_prefix (a ∷ b ∷ s) =
    if a == b'0' && ((b == b'x' || b == b'X') && is_digit_next s) then s else a ∷ b ∷ s

unfoldable pub skip_spaces : Bytes → Bytes
unfolding is_space
skip_spaces [] = []
skip_spaces (c ∷ s) = let rest = skip_spaces s in if is_space c then rest else c ∷ s

-- unsigned long: a value that does not fit is out_of_range, and a minus sign negates mod 2^64.
in_range : Option ℕ → Option ℕ
in_range none = none
in_range (some n) = if ltb n (2 ^ 64) then some n else none

negated : Option ℕ → Option ℕ
negated none = none
negated (some n) = some ((2 ^ 64 - n) % 2 ^ 64)

magnitude : Bytes → Option ℕ
magnitude s = in_range (hex_digits (skip_prefix s) none)

signed : Bytes → Option ℕ
signed [] = none
signed (c ∷ s) =
    if c == b'-'
    then negated (magnitude s)
    else if c == b'+'
    then magnitude s
    else magnitude (c ∷ s)

-- std::stoul(s, nullptr, 16); `none` where it throws.
unfoldable pub stoul : Bytes → Option ℕ
unfolding signed negated magnitude in_range hex_digits skip_prefix skip_spaces
stoul s = signed (skip_spaces s)

-- uint32_t len = std::stoul(…)
unfoldable pub header_length : Bytes → Option ℕ
header_length s = elim (stoul s) [ none ↦ none | some n ↦ some (n % 2 ^ 32) ]

-- The digit that %x prints.
pub hex_char : ℕ → ℕ
hex_char d = if ltb d 10 then b'0' + d else b'a' + (d - 10)

-- The digits of a number without leading zeros, in front of `out`; `fuel` digits at most.
hex_print : ℕ → ℕ → Bytes → Bytes
unfolding hex_char
hex_print zero n out = out
hex_print (suc fuel) n out =
    let rest = hex_print fuel (n / 16) (hex_char (n % 16) ∷ out) in if n == 0 then out else rest

zeros : ℕ → Bytes → Bytes
zeros zero s = s
zeros (suc n) s = b'0' ∷ zeros n s

-- snprintf("%04x", n) on a uint32_t.
print_04x : ℕ → Bytes
unfolding hex_print zeros
print_04x n = let s = hex_print 8 n [] in zeros (4 - length s) s

-- The four bytes of `header` that are sent: snprintf cuts the text at them.
unfoldable pub header : ℕ → Bytes
unfolding print_04x
header len = take 4 (print_04x len)

header_of_zero : header 0 ≡ codes "0000"
unfolding header
header_of_zero = refl

header_of_300 : header 300 ≡ codes "012c"
unfolding header
header_of_300 = refl

header_loose :
    (header_length (codes "12zz") ≡ some 18)
    × (header_length (codes " -01") ≡ some (2 ^ 32 - 1))
    × (header_length (codes "0x1f") ≡ some 31)
    × (header_length (codes "zz12") ≡ none)
unfolding header_length stoul signed skip_spaces negated magnitude in_range hex_digits skip_prefix
header_loose = (refl, refl, refl, refl)

pub header_length_negative : header_length (codes "-004") ≡ some (2 ^ 32 - 4)
unfolding header_length stoul signed skip_spaces negated magnitude in_range hex_digits skip_prefix
header_length_negative = refl

-- Four digits, the leading ones first.
abbrev pub digits4 : ℕ → Bytes
digits4 n =
    hex_char (n / 4096) ∷ hex_char (n / 256 % 16) ∷ hex_char (n / 16 % 16) ∷ hex_char (n % 16) ∷ []

pub header-digits4 : (n : ℕ) → n < 65536 → header n ≡ digits4 n
unfolding header
header-digits4 n h = ground arith
