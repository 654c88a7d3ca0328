-- ===== src/Prelude/Equality.antt =====
-- Equality tests as an interface: `==` of the source's keys.
use Prim.Native.Nat.{ℕ}
use Prim.Native.String.{String}
use text.Mathlib.Text.{◌==◌ as text_beq}
use text.Mathlib.TextEquality.{eq_iff as text_beq_iff}
use mathlib.Core.Path.{◌≡◌}
use mathlib.Core.Logic.{◌↔◌}
use mathlib.Core.Bool.{Bool, true}
use aim_rt.Prelude.Tests.{nat_beq, nat_beq_iff}

-- A test of two keys that decides whether they are equal.
pub record Eq {ℓ} (K : Type ℓ) : Type ℓ where
  pub eqb : K → K → Bool
  pub eqb_iff : (k j : K) → (eqb k j ≡ true) ↔ (k ≡ j)

instance abbrev pub string_eq : Eq String
string_eq = record { eqb_iff = text_beq_iff; eqb = text_beq }

instance abbrev pub nat_eq : Eq ℕ
nat_eq = record { eqb_iff = nat_beq_iff; eqb = nat_beq }

module _ {ℓ} {K : Type ℓ} ⦃key : Eq K⦄ where
  infix 50 ◌==◌
  abbrev pub ◌==◌ : K → K → Bool
  k == j = key.eqb k j

  pub ==_iff : (k j : K) → ((k == j) ≡ true) ↔ (k ≡ j)
  ==_iff = key.eqb_iff
