-- ===== src/Comm/Buffers/Rounds.antt =====
-- The rounds of the loop in `send_frame` (src/libs/communication.cpp).
use cpp_chat_channel.Base.{
  ℕ, zero, suc, ◌+◌, ◌≡◌, refl, ◌⊎◌, inl, inr, Option, none, some, true, false, arith, ltb, nat_eq,
  Bytes, length, drop,
}
use cpp_chat_channel.Effects.{ok, throw, minus_frame}
use cpp_chat_channel.Os.{Fd, Os}
use cpp_chat_channel.Comm.Buffers.{send_loop}

-- One lemma for each outcome of a round.
module _ (os : Os) (f : ℕ) (fd : Fd) (payload : Bytes) (total : ℕ) (k : os.Kernel) where
  pub send_loop_done :
      ltb total (length payload) ≡ false → send_loop os (suc f) fd payload total k ≡ (ok tt, k)
  unfolding send_loop
  send_loop_done e = rw (e, send_loop)

  pub send_loop_refused :
      ltb total (length payload) ≡ true
      → (os.send fd (drop total payload) k).0 ≡ none
      → send_loop os (suc f) fd payload total k
        ≡ (throw minus_frame, (os.send fd (drop total payload) k).1)
  unfolding send_loop
  send_loop_refused e r = rw (e, r, send_loop)

  pub send_loop_more :
      (n : ℕ)
      → ltb total (length payload) ≡ true
      → (os.send fd (drop total payload) k).0 ≡ some (suc n)
      → send_loop os (suc f) fd payload total k
        ≡ send_loop os f fd payload (total + suc n) (os.send fd (drop total payload) k).1
  unfolding send_loop
  send_loop_more n e r = ground arith

  pub send_loop_stalled :
      ltb total (length payload) ≡ true
      → (os.send fd (drop total payload) k).0 ≡ some 0
      → send_loop os (suc f) fd payload total k
        ≡ (throw minus_frame, (os.send fd (drop total payload) k).1)
  unfolding send_loop
  send_loop_stalled e r = rw (e, r, send_loop)

-- How many bytes a call of send reports.
pub Count-cases : (o : Option ℕ) → (o ≡ none) ⊎ (o ≡ some 0) ⊎ ((n : ℕ) × (o ≡ some (suc n)))
Count-cases none = inl refl
Count-cases (some zero) = inr (inl refl)
Count-cases (some (suc n)) = inr (inr (n, refl))
