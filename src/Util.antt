-- ===== src/Util.antt =====
-- The hash by which commands are told apart (src/libs/util.h).
pub mod Errors
use cpp_chat_channel.Base.{
  ℕ, ◌+◌, ◌-◌, ◌*◌, ◌%◌, ◌^◌, ◌<◌, ◌≡◌, refl, [], ◌∷◌, arith, ltb, ◌==◌, nat_eq, if◌then◌else◌,
  Bytes, All,
}

-- static_cast<unsigned int>(char): a char is signed.
unfoldable pub char_value : ℕ → ℕ
char_value c = if ltb c 128 then c else 2 ^ 32 - 256 + c

-- A sum in unsigned long long, returned as unsigned int.
unfoldable pub hash : Bytes → ℕ
unfolding char_value
hash [] = 8603
hash (c ∷ s) =
    let rest = hash s in
    if c == 0 then 8603 else (char_value c + 0xEDB8832F * rest) % 2 ^ 64 % 2 ^ 32

-- The polynomial that the hash is the residue of, for a text without NUL.
unfoldable pub polynomial : Bytes → ℕ
unfolding char_value
polynomial [] = 8603
polynomial (c ∷ s) = char_value c + 0xEDB8832F * polynomial s

-- The wrap at 2 ^ 64 inside the recursion does not matter: the hash of a text is the value of its
-- polynomial mod 2 ^ 32.
pub hash-polynomial : (s : Bytes) → All (λ c. 0 < c) s → hash s ≡ polynomial s % 2 ^ 32
unfolding hash polynomial
hash-polynomial [] a = refl
hash-polynomial (c ∷ s) a = ground (arith, hash-polynomial s a.1)
