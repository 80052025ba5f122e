-- ===== src/Base/Whenever.antt =====
-- What holds of the result of a run whenever there is one.
use mathlib.Core.Option.{Option, none, some}
use gsdm.Base.Tests.{◌>>=◌}

abbrev pub Whenever {ℓ κ} : {A : Type ℓ} → (A → Type κ) → Option A → Type κ
Whenever P none = Unit
Whenever P (some a) = P a

pub Whenever-bind {ℓ κ ι μ} :
    {A : Type ℓ} {B : Type κ} (P : A → Type ι) (Q : B → Type μ) (o : Option A) (k : A → Option B)
    → Whenever P o
    → ((a : A) → P a → Whenever Q (k a))
    → Whenever Q (o >>= k)
Whenever-bind P Q none k h f = tt
Whenever-bind P Q (some a) k h f = f a h

pub Whenever-any {ℓ κ} :
    {A : Type ℓ} (P : A → Type κ) (o : Option A) → ((a : A) → P a) → Whenever P o
Whenever-any P none f = tt
Whenever-any P (some a) f = f a

pub Whenever-mono {ℓ κ ι} :
    {A : Type ℓ} {P : A → Type κ} {Q : A → Type ι} (o : Option A)
    → Whenever P o
    → ((a : A) → P a → Q a)
    → Whenever Q o
Whenever-mono none h f = tt
Whenever-mono (some a) h f = f a h
