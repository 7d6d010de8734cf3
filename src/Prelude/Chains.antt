-- ===== src/Prelude/Chains.antt =====
-- Properties of what a call returns where it does not panic, and how they pass through a chain.
use cs537pair.Prelude.Tests.{if◌then◌else◌, ◌>>=◌}
use mathlib.Core.Path.{◌≡◌, refl, subst}
use mathlib.Core.Bool.{Bool, true, false}
use mathlib.Core.Option.{Option, none, some}

-- A property of the value, if there is one.
abbrev pub Each {ℓ} : {A : Type ℓ} → (A → Type 0) → Option A → Type 0
Each P none = Unit
Each P (some a) = P a

pub Each-if {ℓ} :
    {A : Type ℓ} (P : A → Type 0) (b : Bool) (x y : Option A)
    → Each P x
    → Each P y
    → Each P (if b then x else y)
Each-if P true x y p q = p
Each-if P false x y p q = q

pub Each-cases {ℓ} :
    {A : Type ℓ} (P : A → Type 0) (b : Bool) (x y : Option A)
    → (b ≡ true → Each P x)
    → (b ≡ false → Each P y)
    → Each P (if b then x else y)
Each-cases P true x y p q = p refl
Each-cases P false x y p q = q refl

pub Each-from {ℓ κ} :
    {A : Type ℓ} {B : Type κ} (P : B → Type 0) (o : Option A) (f : A → Option B)
    → ((a : A) → o ≡ some a → Each P (f a))
    → Each P (o >>= f)
Each-from P none f h = tt
Each-from P (some a) f h = h a refl

pub Each-some {ℓ} :
    {A : Type ℓ} (P : A → Type 0) (o : Option A) (a : A) → Each P o → o ≡ some a → P a
Each-some P o a p e = subst (Each P) e p
