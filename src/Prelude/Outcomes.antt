-- ===== src/Prelude/Outcomes.antt =====
-- Fallible code: a value, or the error that the source throws or returns.
use mathlib.Core.Path.{◌≡◌, refl}

pub data Outcome {ℓ} (E : Type 0) (A : Type ℓ) : Type ℓ where
  ok : A → Outcome E A
  err : E → Outcome E A

infixl 5 ◌>>=◌
abbrev pub ◌>>=◌ {ℓ κ} :
    {E : Type 0} {A : Type ℓ} {B : Type κ} → Outcome E A → (A → Outcome E B) → Outcome E B
ok a >>= f = f a
err e >>= f = err e

-- A chain that succeeds has a first step that does.
pub >>=-eq-ok {ℓ κ} :
    {E : Type 0} {A : Type ℓ} {B : Type κ} (step : Outcome E A) (after : A → Outcome E B) {last : B}
    → (step >>= after) ≡ ok last
    → (first : A) × (step ≡ ok first) × (after first ≡ ok last)
>>=-eq-ok (err thrown) after e = cc
>>=-eq-ok (ok first) after e = (first, refl, e)

-- `ok` after a step on the value.
abbrev pub map_ok {ℓ κ} :
    {E : Type 0} {A : Type ℓ} {B : Type κ} → (A → B) → Outcome E A → Outcome E B
map_ok f (ok a) = ok (f a)
map_ok f (err e) = err e

pub ok-injective {ℓ} :
    {E : Type 0} {A : Type ℓ} (a b : A) → ◌≡◌ {A = Outcome E A} (ok a) (ok b) → a ≡ b
ok-injective a b h = cc
