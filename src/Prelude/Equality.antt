-- ===== src/Prelude/Equality.antt =====
-- Equality tests, `===` of the source: an interface, and its instances for numbers and texts.
use Prim.Native.Nat.{ℕ}
use Prim.Native.String.{String}
use mathlib.Core.Path.{◌≡◌, refl}
use mathlib.Core.Logic.{◌↔◌, ◌≢◌, ◌⊎◌, inl, inr}
use mathlib.Core.Bool.{Bool, true, false, decide}
use native.Mathlib.Omega.{arith}
use text.Mathlib.Text.{◌==◌ as str_eq}
use text.Mathlib.TextEquality.{eq_iff}
use specmate.Prelude.Tests.{nat_beq, nat_beq_iff, Bool-cases}

pub record Eq {ℓ} (A : Type ℓ) : Type ℓ where
  pub beq : A → A → Bool
  pub beq_iff : (x y : A) → (beq x y ≡ true) ↔ (x ≡ y)

module _ {ℓ} {A : Type ℓ} ⦃e : Eq A⦄ where
  infix 50 ◌==◌
  abbrev pub ◌==◌ : A → A → Bool
  ◌==◌ = e.beq

module _ {ℓ} {A : Type ℓ} where
  unfoldable pub discrete_beq : Discrete A → A → A → Bool
  unfolding decide
  discrete_beq d a b = decide (d a b)

  pub discrete_beq_iff : (d : Discrete A) (a b : A) → (discrete_beq d a b ≡ true) ↔ (a ≡ b)
  unfolding discrete_beq
  discrete_beq_iff d a b = ground arith

  -- Types whose equality is decided have a test.
  abbrev pub eq_of_discrete : Discrete A → Eq A
  eq_of_discrete d = record { beq = discrete_beq d; beq_iff = discrete_beq_iff d }

instance abbrev pub string_eq : Eq String
string_eq = record { beq = str_eq; beq_iff = eq_iff }

module _ {ℓ} {A : Type ℓ} ⦃e : Eq A⦄ where
  pub beq_refl : (a : A) → (a == a) ≡ true
  beq_refl a = (e.beq_iff a a).1 refl

  -- A test is true and its sides are equal, or it is false and they differ.
  pub beq_cases : (a b : A) → (((a == b) ≡ true) × (a ≡ b)) ⊎ (((a == b) ≡ false) × (a ≢ b))
  beq_cases a b = elim (Bool-cases (a == b)) [
    | inl same ↦ inl (same, (e.beq_iff a b).0 same)
    | inr other ↦ inr (other, λ q. ground (arith, e.beq_iff a b))
  ]

instance abbrev pub nat_eq : Eq ℕ
nat_eq = record { beq = nat_beq; beq_iff = nat_beq_iff }
