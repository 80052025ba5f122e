-- ===== src/Base/Returns.antt =====
-- A run that does not fault and meets a postcondition.
use mathlib.Core.Option.{Option, some}
use mathlib.Core.Path.{◌≡◌, refl}
use gsdm.Base.Tests.{◌>>=◌}

pub data Returns {ℓ κ} {A : Type ℓ} (P : A → Type κ) : Option A → Type (ℓ ⊔ κ) where
  returns : {a : A} → P a → Returns P (some a)

module _ {ℓ κ} {A : Type ℓ} {P : A → Type κ} where
  pub bind {λ₁ λ₂} :
      {B : Type λ₁} {Q : B → Type λ₂} {r : Option A} {k : A → Option B}
      → Returns P r
      → ((a : A) → P a → Returns Q (k a))
      → Returns Q (r >>= k)
  bind (returns p) next = next _ p

  pub mono {μ} : {Q : A → Type μ} {r : Option A} → Returns P r → ((a : A) → P a → Q a) → Returns Q r
  mono (returns p) weaken = returns (weaken _ p)

  -- The result of such a run.
  pub result : {r : Option A} → Returns P r → (a : A) × (r ≡ some a) × P a
  result (returns {a} p) = (a, refl, p)
