-- ===== src/Base/Eq.antt =====
-- Equality tests of keys, as an interface.
use Prim.Native.Nat.{ℕ}
use mathlib.Core.Path.{◌≡◌, refl}
use mathlib.Core.Logic.{◌↔◌, ◌≢◌}
use mathlib.Core.Bool.{Bool, true, false}
use cpp_chat_channel.Base.Tests.{nat_beq, nat_beq_iff}
use cpp_chat_channel.Base.Int.{ℤ, int_beq, int_beq_iff}

-- A test that answers `true` on equal keys and on no others.
pub record Eq {ℓ} (K : Type ℓ) : Type ℓ where
  pub same : K → K → Bool
  pub same_iff : (j k : K) → (same j k ≡ true) ↔ (j ≡ k)

instance abbrev pub nat_eq : Eq ℕ
nat_eq = record { same = nat_beq; same_iff = nat_beq_iff }

instance abbrev pub int_eq : Eq ℤ
int_eq = record { same = int_beq; same_iff = int_beq_iff }

module _ {ℓ} {K : Type ℓ} ⦃test : Eq K⦄ where
  infix 50 ◌==◌
  abbrev pub ◌==◌ : K → K → Bool
  ◌==◌ = test.same

  pub ==_iff : (j k : K) → ((j == k) ≡ true) ↔ (j ≡ k)
  ==_iff = test.same_iff

  pub ==_refl : (k : K) → (k == k) ≡ true
  ==_refl k = (test.same_iff k k).1 refl

  -- A test that fails tells two keys apart.
  pub ne_of_test : (j k : K) → (j == k) ≡ false → j ≢ k
  ne_of_test j k h p = cc (h, (test.same_iff j k).1 p)
