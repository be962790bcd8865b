-- ===== src/Prelude/Throwing.antt =====
-- Code that may throw: a value, or the error that is thrown.
use mathlib.Core.Path.{◌≡◌, refl, ap}
use mathlib.Core.Logic.{◌⊎◌, inl, inr}
use mathlib.Core.Bool.{Bool, true, false, not}
use specmate.Prelude.Tests.{if◌then◌else◌, clash}

pub data Result {ℓ κ} (E : Type ℓ) (A : Type κ) : Type (ℓ ⊔ κ) where
  ok : A → Result E A
  err : E → Result E A

module _ {ℓ κ μ} {E : Type ℓ} {A : Type κ} {B : Type μ} where
  infixl 5 ◌>>=◌
  abbrev pub ◌>>=◌ : Result E A → (A → Result E B) → Result E B
  ok a >>= f = f a
  err e >>= f = err e

  -- A chain ended well where both of its parts did.
  pub >>=-eq-ok :
      (r : Result E A) (next : A → Result E B) {last : B}
      → (r >>= next) ≡ ok last
      → (first : A) × (r ≡ ok first) × (next first ≡ ok last)
  >>=-eq-ok (err thrown) next h = cc
  >>=-eq-ok (ok first) next h = (first, refl, h)

module _ {ℓ κ} {E : Type ℓ} {A : Type κ} where
  abbrev pub is_ok : Result E A → Bool
  is_ok (ok a) = true
  is_ok (err e) = false

  pub Result-cases : (r : Result E A) → ((a : A) × (r ≡ ok a)) ⊎ ((e : E) × (r ≡ err e))
  Result-cases (ok a) = inl (a, refl)
  Result-cases (err e) = inr (e, refl)

  or_else : A → Result E A → A
  or_else a (ok b) = b
  or_else a (err e) = a

  pub ok-injective : {a b : A} → ◌≡◌ {A = Result E A} (ok a) (ok b) → a ≡ b
  unfolding or_else
  ok-injective {a} h = ap (or_else a) h

  -- Two guards that throw, and what is left where they let through.
  pub guards-eq-ok :
      (b c : Bool) (e f : E) (a : A) {r : A}
      → ◌≡◌ {A = Result E A} (if not b then err e else if not c then err f else ok a) (ok r)
      → (b ≡ true) × (c ≡ true) × (a ≡ r)
  guards-eq-ok true true e f a h = (refl, refl, ok-injective h)
  guards-eq-ok true false e f a h = cc
  guards-eq-ok false c e f a h = cc

  -- A test that throws where it is true, and one that throws where it is false.
  pub refuse-eq-ok :
      (b : Bool) (e : E) (m : Result E A) {r : A}
      → ◌≡◌ {A = Result E A} (if b then err e else m) (ok r)
      → (b ≡ false) × (m ≡ ok r)
  refuse-eq-ok true e m h = cc
  refuse-eq-ok false e m h = (refl, h)

  pub require-eq-ok :
      (b : Bool) (e : E) (m : Result E A) {r : A}
      → ◌≡◌ {A = Result E A} (if not b then err e else m) (ok r)
      → (b ≡ true) × (m ≡ ok r)
  require-eq-ok false e m h = cc
  require-eq-ok true e m h = (refl, h)

  -- What throws does not succeed.
  pub err-eq-ok {μ} : {P : Type μ} (e : E) (a : A) → ◌≡◌ {A = Result E A} (err e) (ok a) → P
  err-eq-ok e a h = clash false (ap is_ok h) refl
