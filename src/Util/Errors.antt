-- ===== src/Util/Errors.antt =====
-- The exceptions that src/libs/util.h builds: coded_runtime_error and runtime_errorf.
use cpp_chat_channel.Base.{
  ℕ, zero, suc, ◌+◌, ◌-◌, ◌^◌, ◌<◌, ◌≤◌, ◌≡◌, refl, ap, Option, none, some, [], ◌∷◌, Bool, true,
  false, ltb, if◌then◌else◌, ℤ, Bytes, codes, length, take, arith, nat_eq,
}
use cpp_chat_channel.Text.{c_str}

-- std::runtime_error, and coded_runtime_error with its code.
pub record RuntimeError : Type 0 where
  pub what : Bytes

pub record CodedRuntimeError : Type 0 where
  pub code : ℤ
  pub what : Bytes

-- snprintf(buf, size, fmt, args...) for one format and its arguments: what it returns and what it
-- leaves in the buffer before the final zero; `none` where it returns a negative number.
abbrev pub Snprintf : Type 0
Snprintf = ℕ → Option (ℕ × Bytes)

-- The second call, whose result is not read: `big` keeps its zeros if it fails.
unfoldable pub format_again : Option (ℕ × Bytes) → Bytes
unfolding c_str
format_again none = []
format_again (some (n, text)) = c_str text

-- The text of both templates, from the first call.
unfoldable pub message_of : Snprintf → Option (ℕ × Bytes) → Bytes
unfolding format_again c_str
message_of snprintf none = codes "format error"
message_of snprintf (some (n, buf)) =
    if ltb n 256 then c_str buf else format_again (snprintf (n + 1))

unfoldable pub format_message : Snprintf → Bytes
unfolding message_of
format_message snprintf = message_of snprintf (snprintf 256)

-- runtime_errorf(s), runtime_errorf(code, s) and runtime_errorf(code)
unfoldable pub error_of : Bytes → RuntimeError
unfolding c_str
error_of s = record { what = c_str s }

unfoldable pub coded_error_of : ℤ → Bytes → CodedRuntimeError
unfolding c_str
coded_error_of code s = record { code = code; what = c_str s }

unfoldable pub bare_error : ℤ → CodedRuntimeError
bare_error code = record { code = code; what = [] }

-- runtime_errorf(fmt, args...) and runtime_errorf(code, fmt, args...)
unfoldable pub runtime_errorf : Snprintf → RuntimeError
unfolding format_message
runtime_errorf snprintf = record { what = format_message snprintf }

unfoldable pub coded_runtime_errorf : ℤ → Snprintf → CodedRuntimeError
unfolding format_message
coded_runtime_errorf code snprintf = record { code = code; what = format_message snprintf }

-- What snprintf promises: it returns the length of the whole text, and leaves of it what the buffer
-- holds besides the final zero.
pub record Formats (snprintf : Snprintf) : Type 0 where
  pub text : Bytes
  pub fits_int : length text < 2 ^ 31 - 1
  pub writes : (size : ℕ) → 0 < size → snprintf size ≡ some (length text, take (size - 1) text)

take_all : (n : ℕ) (s : Bytes) → length s ≤ n → take n s ≡ s
take_all n [] h = grind arith
take_all zero (c ∷ s) h = grind arith
take_all (suc n) (c ∷ s) h = ap (◌∷◌ c) (take_all n s (omega arith))

first_or_again :
    (snprintf : Snprintf) (f : Formats snprintf) (b : Bool)
    → ltb (length f.text) 256 ≡ b
    → (if b then c_str (take 255 f.text) else format_again (snprintf (length f.text + 1)))
      ≡ c_str f.text
unfolding format_again
first_or_again snprintf f true h = ap c_str (take_all 255 f.text (ground arith))
first_or_again snprintf f false h =
    rw (f.writes (length f.text + 1) (omega arith))
      (ap c_str (take_all (length f.text + 1 - 1) f.text (omega arith)))

format_message-c_str :
    (snprintf : Snprintf) (f : Formats snprintf) → format_message snprintf ≡ c_str f.text
unfolding format_message message_of
format_message-c_str snprintf f =
    rw (f.writes 256 (omega arith)) (first_or_again snprintf f (ltb (length f.text) 256) refl)

-- Where snprintf formats the arguments to a text, the exception has the whole text, as a C string,
-- whether it fits in the first buffer or not, and the coded one has its code too.
pub runtime_errorf_whole :
    (snprintf : Snprintf) (code : ℤ) (f : Formats snprintf)
    → (runtime_errorf snprintf ≡ error_of f.text)
      × (coded_runtime_errorf code snprintf ≡ coded_error_of code f.text)
unfolding runtime_errorf coded_runtime_errorf error_of coded_error_of
runtime_errorf_whole snprintf code f =
    let whole = format_message-c_str snprintf f in
    (
      ap (λ text. record { what = text }) whole,
      ap (λ text. record { code = code; what = text }) whole,
    )
