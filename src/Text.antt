-- ===== src/Text.antt =====
-- What the program uses of std::string and of the C library: comparison, find, std::stoi and atoi
-- (src/client/client.cpp, src/client/client_win.cpp, src/server/server.cpp).
use cpp_chat_channel.Base.{
  ℕ, zero, suc, ◌+◌, ◌-◌, ◌*◌, ◌%◌, ◌^◌, ◌≡◌, refl, Option, none, some, [], ◌∷◌, Bool, true, false,
  ◌&&◌, ltb, leb, ◌==◌, nat_eq, if◌then◌else◌, ℤ, pos, negsuc, Bytes, codes,
}
use cpp_chat_channel.Comm.Header.{skip_spaces}

-- s.c_str() as a C string: what stands before the first zero.
unfoldable pub c_str : Bytes → Bytes
c_str [] = []
c_str (c ∷ s) = let rest = c_str s in if c == 0 then [] else c ∷ rest

unfoldable pub same_text : Bytes → Bytes → Bool
same_text [] [] = true
same_text [] (b ∷ t) = false
same_text (a ∷ s) [] = false
same_text (a ∷ s) (b ∷ t) = a == b && same_text s t

-- strncmp(s, p, length of p) == 0, and s.rfind(p, 0) == 0
unfoldable pub is_prefix : Bytes → Bytes → Bool
is_prefix [] s = true
is_prefix (p ∷ ps) [] = false
is_prefix (p ∷ ps) (c ∷ s) = p == c && is_prefix ps s

-- s.find(pattern): where it stands first; `none` is npos.
unfoldable pub find : Bytes → Bytes → Option ℕ
unfolding is_prefix
find pattern [] = if is_prefix pattern [] then some 0 else none
find pattern (c ∷ s) =
    let later = find pattern s in
    if is_prefix pattern (c ∷ s) then some 0 else elim later [ none ↦ none | some n ↦ some (suc n) ]

abbrev is_digit : ℕ → Bool
is_digit c = leb b'0' c && leb c b'9'

-- The digits up to the first byte that is none; `none` if there is no digit.
decimal : Bytes → Option ℕ → Option ℕ
decimal [] acc = acc
decimal (c ∷ s) acc =
    let rest = decimal s (some (elim acc [ none ↦ c - b'0' | some n ↦ n * 10 + (c - b'0') ])) in
    if is_digit c then rest else acc

-- The sign, true for minus, and the value of the digits.
signed_digits : Bytes → Bool × Option ℕ
unfolding decimal
signed_digits [] = (false, none)
signed_digits (c ∷ s) =
    if c == b'-'
    then (true, decimal s none)
    else if c == b'+'
    then (false, decimal s none)
    else (false, decimal (c ∷ s) none)

-- `none` for a value that an int does not hold.
to_int : Bool → ℕ → Option ℤ
to_int false n = if ltb n (2 ^ 31) then some (pos n) else none
to_int true zero = some (pos 0)
to_int true (suc n) = if ltb n (2 ^ 31) then some (negsuc n) else none

-- std::stoi(s); `none` where it throws, without digits or out of range.
unfoldable pub stoi : Bytes → Option ℤ
unfolding signed_digits to_int skip_spaces
stoi s =
    let (minus, digits) = signed_digits (skip_spaces s) in
    elim digits [ none ↦ none | some n ↦ to_int minus n ]

-- atoi(s), which is 0 without digits; `none` out of range, where it is undefined.
unfoldable pub atoi : Bytes → Option ℤ
unfolding signed_digits to_int skip_spaces
atoi s =
    let (minus, digits) = signed_digits (skip_spaces s) in
    elim digits [ none ↦ some (pos 0) | some n ↦ to_int minus n ]

-- (int) of a 64-bit integer.
unfoldable pub to_int32 : ℤ → ℤ
to_int32 (pos n) = let m = n % 2 ^ 32 in if ltb m (2 ^ 31) then pos m else negsuc (2 ^ 32 - 1 - m)
to_int32 (negsuc n) =
    let m = n % 2 ^ 32 in if ltb m (2 ^ 31) then negsuc m else pos (2 ^ 32 - 1 - m)

stoi_at :
    (stoi (codes " 12x") ≡ some (pos 12))
    × (stoi (codes "-7") ≡ some (negsuc 6))
    × (stoi (codes "x") ≡ none)
unfolding stoi
stoi_at = (refl, refl, refl)

atoi_at :
    (atoi (codes " 12x") ≡ some (pos 12))
    × (atoi (codes "x") ≡ some (pos 0))
    × (atoi (codes "-2147483649") ≡ none)
unfolding atoi
atoi_at = (refl, refl, refl)
