-- ===== src/Base/Decimal.antt =====
-- std::to_string.
use Prim.Native.Nat.{ℕ, zero, suc, ◌+◌, ◌/◌, ◌%◌}
use mathlib.Core.List.{[], ◌∷◌}
use cpp_chat_channel.Base.Tests.{nat_beq, if◌then◌else◌}
use cpp_chat_channel.Base.Lists.{Bytes}
use cpp_chat_channel.Base.Int.{ℤ, pos, negsuc}

-- The digits of a number in front of `out`; `fuel` rounds at most.
unfoldable pub digits : ℕ → ℕ → Bytes → Bytes
digits zero n out = out
digits (suc fuel) n out =
    let rest = digits fuel (n / 10) ((b'0' + n % 10) ∷ out) in if nat_beq n 0 then out else rest

-- A number has no more digits than it is large.
unfoldable pub nat_to_string : ℕ → Bytes
unfolding digits
nat_to_string n = if nat_beq n 0 then b'0' ∷ [] else digits n n []

unfoldable pub to_string : ℤ → Bytes
unfolding nat_to_string
to_string (pos n) = nat_to_string n
to_string (negsuc n) = b'-' ∷ nat_to_string (suc n)
