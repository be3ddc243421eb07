-- ===== src/Json/Grammar.antt =====
-- The texts of JSON objects (RFC 8259), as far as the clients write them.
use cpp_chat_channel.Base.{
  ℕ, zero, suc, ◌+◌, ◌/◌, ◌%◌, ◌≤◌, ◌≡◌, ◌≢◌, refl, List, [], ◌∷◌, ◌++◌, Bool, true, arith, ◌&&◌,
  not, leb, ◌==◌, nat_eq, Bytes, All,
}
use cpp_chat_channel.Base.Decimal.{nat_to_string}
use cpp_chat_channel.Json.{Value, text, number}
use cpp_chat_channel.Text.{c_str}
use cpp_chat_channel.Base.Decimal.{digits}

-- A letter behind a backslash, and the character that it stands for.
pub data Escape : ℕ → ℕ → Type 0 where
  quote : Escape 34 34
  backslash : Escape 92 92
  solidus : Escape 47 47
  backspace : Escape 98 8
  form_feed : Escape 102 12
  newline : Escape 110 10
  carriage_return : Escape 114 13
  tab : Escape 116 9

-- What stands between the quotes of a string, and the string.
pub data IsQuoted : Bytes → Bytes → Type 0 where
  closed : IsQuoted [] []
  plain : {s t : Bytes} (c : ℕ) → 32 ≤ c → c ≢ 34 → c ≢ 92 → IsQuoted s t → IsQuoted (c ∷ s) (c ∷ t)
  escaped : {s t : Bytes} {l c : ℕ} → Escape l c → IsQuoted s t → IsQuoted (92 ∷ l ∷ s) (c ∷ t)

pub data IsValue : Bytes → Value → Type 0 where
  is_text : {s t : Bytes} → IsQuoted s t → IsValue (34 ∷ s ++ 34 ∷ []) (text t)
  is_number : (n : ℕ) → IsValue (nat_to_string n) (number n)

-- Members with their keys, set apart by a comma and blanks.
pub data IsMembers : Bytes → List (Bytes × Value) → Type 0 where
  last_member :
      {k key v : Bytes} {value : Value}
      → IsQuoted k key
      → IsValue v value
      → IsMembers (34 ∷ k ++ 34 ∷ 58 ∷ v) ((key, value) ∷ [])
  next_member :
      {k key v rest : Bytes} {value : Value} {members : List (Bytes × Value)} (blanks : Bytes)
      → IsQuoted k key
      → IsValue v value
      → All (λ c. c ≡ 32) blanks
      → IsMembers rest members
      → IsMembers (34 ∷ k ++ 34 ∷ 58 ∷ (v ++ 44 ∷ (blanks ++ rest))) ((key, value) ∷ members)

pub data IsObject : Bytes → List (Bytes × Value) → Type 0 where
  is_object :
      {m : Bytes} {members : List (Bytes × Value)}
      → IsMembers m members
      → IsObject (123 ∷ m ++ 125 ∷ []) members

abbrev pub is_plain : Bytes → Bool
is_plain [] = true
is_plain (c ∷ s) = (leb 32 c && (not (c == 34) && not (c == 92))) && is_plain s

pub IsQuoted-plain : (s : Bytes) → is_plain s ≡ true → IsQuoted s s
IsQuoted-plain [] h = closed
IsQuoted-plain (c ∷ s) h =
    plain c (ground arith) (ground arith) (ground arith) (IsQuoted-plain s (ground arith))

abbrev NonZero : Bytes → Type 0
NonZero s = All (λ c. c ≢ 0) s

NonZero-append : (s t : Bytes) → NonZero s → NonZero t → NonZero (s ++ t)
NonZero-append [] t h l = l
NonZero-append (c ∷ s) t (n, h) l = (n, NonZero-append s t h l)

c_str-NonZero : (s : Bytes) → NonZero s → c_str s ≡ s
unfolding c_str
c_str-NonZero [] h = refl
c_str-NonZero (c ∷ s) (n, h) = ground (arith, c_str-NonZero s h)

digits-NonZero : (fuel n : ℕ) (out : Bytes) → NonZero out → NonZero (digits fuel n out)
unfolding digits
digits-NonZero zero n out h = h
digits-NonZero (suc fuel) n out h =
    ground
      (arith, digits-NonZero fuel (n / 10) ((b'0' + n % 10) ∷ out) ((λ e. omega (arith, e)), h))

nat_to_string-NonZero : (n : ℕ) → NonZero (nat_to_string n)
unfolding nat_to_string
nat_to_string-NonZero n = ground (arith, digits-NonZero n n [] tt)

Escape-NonZero : {l c : ℕ} → Escape l c → l ≢ 0
Escape-NonZero quote = λ e. omega (arith, e)
Escape-NonZero backslash = λ e. omega (arith, e)
Escape-NonZero solidus = λ e. omega (arith, e)
Escape-NonZero backspace = λ e. omega (arith, e)
Escape-NonZero form_feed = λ e. omega (arith, e)
Escape-NonZero newline = λ e. omega (arith, e)
Escape-NonZero carriage_return = λ e. omega (arith, e)
Escape-NonZero tab = λ e. omega (arith, e)

char_NonZero : (c : ℕ) → 1 ≤ c → c ≢ 0
char_NonZero c h e = omega (arith, h, e)

IsQuoted-NonZero : {s t : Bytes} → IsQuoted s t → NonZero s
IsQuoted-NonZero closed = tt
IsQuoted-NonZero (plain c l _ _ q) = (char_NonZero c (omega arith), IsQuoted-NonZero q)
IsQuoted-NonZero (escaped e q) =
    (char_NonZero 92 (omega arith), (Escape-NonZero e, IsQuoted-NonZero q))

quoted_NonZero :
    {s t : Bytes} (rest : Bytes) → IsQuoted s t → NonZero rest → NonZero (34 ∷ s ++ 34 ∷ rest)
quoted_NonZero {s} rest q h = (
  char_NonZero 34 (omega arith),
  NonZero-append s (34 ∷ rest) (IsQuoted-NonZero q) (char_NonZero 34 (omega arith), h),
)

IsValue-NonZero : {s : Bytes} {v : Value} → IsValue s v → NonZero s
IsValue-NonZero (is_text q) = quoted_NonZero [] q tt
IsValue-NonZero (is_number n) = nat_to_string-NonZero n

blanks_NonZero : (b : Bytes) → All (λ c. c ≡ 32) b → NonZero b
blanks_NonZero [] h = tt
blanks_NonZero (c ∷ b) (e, h) = (char_NonZero c (omega arith), blanks_NonZero b h)

IsMembers-NonZero : {s : Bytes} {ms : List (Bytes × Value)} → IsMembers s ms → NonZero s
IsMembers-NonZero (last_member {v = v} q i) =
    quoted_NonZero (58 ∷ v) q (char_NonZero 58 (omega arith), IsValue-NonZero i)
IsMembers-NonZero (next_member {v = v} {rest = r} b q i bl m) =
    quoted_NonZero (58 ∷ (v ++ 44 ∷ (b ++ r))) q (
      char_NonZero 58 (omega arith),
      NonZero-append v (44 ∷ (b ++ r)) (IsValue-NonZero i) (
        char_NonZero 44 (omega arith),
        NonZero-append b r (blanks_NonZero b bl) (IsMembers-NonZero m),
      ),
    )

-- The text of an object has no zero, so that the C string is all of it.
pub c_str-IsObject : {s : Bytes} {ms : List (Bytes × Value)} → IsObject s ms → c_str s ≡ s
c_str-IsObject (is_object {m = m} h) = c_str-NonZero (123 ∷ m ++ 125 ∷ []) (
  char_NonZero 123 (omega arith),
  NonZero-append m (125 ∷ []) (IsMembers-NonZero h) (char_NonZero 125 (omega arith), tt),
)
