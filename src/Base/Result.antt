-- ===== src/Base/Result.antt =====
-- What a Python call does: it returns a value, or raises.
use mathlib.Core.Path.{◌≡◌, refl}
use mathlib.Core.Bool.{Bool, true, false}

pub data Result {ℓ κ} (E : Type ℓ) (A : Type κ) : Type (ℓ ⊔ κ) where
  ok : A → Result E A
  err : E → Result E A

infixl 5 ◌>>=◌
abbrev pub ◌>>=◌ {ℓ κ ι} :
    {E : Type ℓ} {A : Type κ} {B : Type ι} → Result E A → (A → Result E B) → Result E B
ok a >>= f = f a
err e >>= f = err e

abbrev pub is_ok {ℓ κ} : {E : Type ℓ} {A : Type κ} → Result E A → Bool
is_ok (ok _) = true
is_ok (err _) = false

-- The call returns a value, and the value is as said.
abbrev pub Yields {ℓ κ} : {E : Type ℓ} {A : Type κ} → (A → Type 0) → Result E A → Type 0
Yields P (ok a) = P a
Yields P (err e) = ⊥

-- When a step returned after a first call, the first call returned the value that it took.
pub returned_first {ℓ κ ι} :
    {E : Type ℓ} {A : Type κ} {B : Type ι} (step : A → Result E B) (first : Result E A) (y : B)
    → (first >>= step) ≡ ok y
    → (x : A) × ((step x ≡ ok y) × (first ≡ ok x))
returned_first step (err raised) y went = cc
returned_first step (ok x) y went = (x, (went, refl))

pub ok_value {ℓ κ} :
    {E : Type ℓ} {A : Type κ} (x y : A) → ◌≡◌ {A = Result E A} (ok x) (ok y) → x ≡ y
ok_value x y same = cc
