-- ===== src/Prelude/Keys.antt =====
-- Equality of keys, as Rust's `Eq`: a Boolean test that decides equality.
use Prim.Native.Nat.{ℕ}
use mathlib.Core.Path.{◌≡◌, refl}
use mathlib.Core.Logic.{◌↔◌}
use mathlib.Core.Bool.{Bool, true}
use zfx_subzero.Prelude.Tests.{eqb, eqb_iff}

pub record Eq {ℓ} (K : Type ℓ) : Type ℓ where
  pub eq : K → K → Bool
  pub eq_iff : (j k : K) → (eq j k ≡ true) ↔ (j ≡ k)

instance abbrev pub nat_eq : Eq ℕ
nat_eq = record { eq = eqb; eq_iff = eqb_iff }

module _ {ℓ} {K : Type ℓ} ⦃keys : Eq K⦄ where
  infix 50 ◌==◌
  abbrev pub ◌==◌ : K → K → Bool
  ◌==◌ = keys.eq

  pub ==_refl : (k : K) → (k == k) ≡ true
  ==_refl k = (keys.eq_iff k k).1 refl

  pub ==_sound : (j k : K) → (j == k) ≡ true → j ≡ k
  ==_sound j k = (keys.eq_iff j k).0
