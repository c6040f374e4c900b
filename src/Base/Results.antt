-- ===== src/Base/Results.antt =====
-- Results of code that throws: a value or the error that was thrown.
use mathlib.Core.Path.{◌≡◌, refl}
use mathlib.Core.Logic.{◌⊎◌, inl, inr}
use mathlib.Core.Bool.{Bool, true, false}

pub data Result {ℓ κ} (E : Type ℓ) (A : Type κ) : Type (ℓ ⊔ κ) where
  ok : A → Result E A
  err : E → Result E A

infixl 5 ◌>>=◌ ◌>>◌
abbrev pub ◌>>=◌ {ℓ κ μ} :
    {E : Type ℓ} {A : Type κ} {B : Type μ} → Result E A → (A → Result E B) → Result E B
◌>>=◌ (err thrown) next = err thrown
◌>>=◌ (ok value) next = next value

-- A step that is run for its error alone.
abbrev pub ◌>>◌ {ℓ κ} : {E : Type ℓ} {B : Type κ} → Result E (Unit {0}) → Result E B → Result E B
◌>>◌ (err thrown) next = err thrown
◌>>◌ (ok done) next = next

-- `if (!test) throw e`.
abbrev pub require {ℓ} : {E : Type ℓ} → Bool → E → Result E (Unit {0})
require false thrown = err thrown
require true thrown = ok tt

module _ {ℓ κ} {E : Type ℓ} {A : Type κ} where
  abbrev pub is_ok : Result E A → Bool
  is_ok (err thrown) = false
  is_ok (ok value) = true

  pub Result-cases : (r : Result E A) → ((a : A) × (r ≡ ok a)) ⊎ ((e : E) × (r ≡ err e))
  Result-cases (err thrown) = inr (thrown, refl)
  Result-cases (ok value) = inl (value, refl)

  -- A chain that succeeds went through a value of its first step.
  pub bind_ok {μ} :
      {B : Type μ} (first : Result E A) (next : A → Result E B) {result : B}
      → (first >>= next) ≡ ok result
      → (value : A) × (first ≡ ok value) × (next value ≡ ok result)
  bind_ok (err thrown) next h = cc
  bind_ok (ok value) next h = (value, refl, h)

-- A chain behind a requirement that succeeds: the requirement was met.
pub require_ok {ℓ κ} :
    {E : Type ℓ} {B : Type κ} (test : Bool) (e : E) (next : Result E B) {result : B}
    → (require test e >> next) ≡ ok result
    → (test ≡ true) × (next ≡ ok result)
require_ok true e next h = (refl, h)
require_ok false e next h = cc

pub then_ok {ℓ κ} :
    {E : Type ℓ} {B : Type κ} (first : Result E (Unit {0})) (next : Result E B) {result : B}
    → (first >> next) ≡ ok result
    → (first ≡ ok tt) × (next ≡ ok result)
then_ok (err thrown) next h = cc
then_ok (ok done) next h = (refl, h)
