-- ===== src/Base/Tests.antt =====
-- Boolean tests on numbers and on keys, the conditional, and the case lemmas to split on a value.
use Prim.Native.Nat.{ℕ, ◌≤◌, compare, Ordering}
use Prim.Native.String.{String}
use mathlib.Core.Path.{◌≡◌, refl}
use mathlib.Core.Logic.{◌≢◌, ◌↔◌, ◌⊎◌, inl, inr}
use mathlib.Core.Bool.{Bool, true, false, not, ◌&&◌, ◌||◌}
use mathlib.Core.Option.{Option, none, some}
use native.Mathlib.Omega.{arith}
use text.Mathlib.Text.{◌==◌ as str_eq}
use text.Mathlib.TextEquality.{eq_iff}

abbrev pub ltb : ℕ → ℕ → Bool
ltb a b = elim (compare a b) [ Ordering.lt ↦ true | _ ↦ false ]

abbrev pub leb : ℕ → ℕ → Bool
leb a b = elim (compare a b) [ Ordering.gt ↦ false | _ ↦ true ]

abbrev pub nat_eqb : ℕ → ℕ → Bool
nat_eqb a b = elim (compare a b) [ Ordering.eq ↦ true | _ ↦ false ]

infix 1 if◌then◌else◌
abbrev pub if◌then◌else◌ {ℓ} : {A : Type ℓ} → Bool → A → A → A
if true then x else y = x
if false then x else y = y

pub nat_eqb_iff : (a b : ℕ) → (nat_eqb a b ≡ true) ↔ (a ≡ b)
nat_eqb_iff a b = ground arith

-- A type whose values are compared by `===`.
pub record Key {ℓ} (K : Type ℓ) : Type ℓ where
  pub same : K → K → Bool
  pub same_iff : (j k : K) → (same j k ≡ true) ↔ (j ≡ k)

infix 50 ◌==◌
abbrev pub ◌==◌ {ℓ} : {K : Type ℓ} ⦃key : Key K⦄ → K → K → Bool
◌==◌ ⦃key⦄ j k = key.same j k

instance abbrev pub string_key : Key String
string_key = record { same_iff = eq_iff; same = str_eq }

instance abbrev pub nat_key : Key ℕ
nat_key = record { same_iff = nat_eqb_iff; same = nat_eqb }

pub Bool-cases : (b : Bool) → (b ≡ true) ⊎ (b ≡ false)
Bool-cases true = inl refl
Bool-cases false = inr refl

pub Option-cases {ℓ} : {A : Type ℓ} (o : Option A) → (o ≡ none) ⊎ ((a : A) × (o ≡ some a))
Option-cases none = inl refl
Option-cases (some a) = inr (a, refl)

module _ {ℓ} {A : Type ℓ} ⦃key : Key A⦄ where
  pub ==_refl : (a : A) → (a == a) ≡ true
  ==_refl a = (key.same_iff a a).1 refl

  pub ==_sound : (a b : A) → (a == b) ≡ true → a ≡ b
  ==_sound a b = (key.same_iff a b).0

  pub ==_ne : (a b : A) → a ≢ b → (a == b) ≡ false
  ==_ne a b h = elim (Bool-cases (a == b)) [
    | inl same ↦ absurd (h ((key.same_iff a b).0 same))
    | inr other ↦ other
  ]

pub and_true : {a b : Bool} → a && b ≡ true → (a ≡ true) × (b ≡ true)
and_true {a} {b} h = both a b h
  where
    both : (a b : Bool) → a && b ≡ true → (a ≡ true) × (b ≡ true)
    both true b h = (refl, h)
    both false b h = cc

pub both_true : {a b : Bool} → a ≡ true → b ≡ true → a && b ≡ true
both_true {a} {b} h h' = rw (h, h') refl

pub or_false : {a b : Bool} → a || b ≡ false → (a ≡ false) × (b ≡ false)
or_false {a} {b} h = both a b h
  where
    both : (a b : Bool) → a || b ≡ false → (a ≡ false) × (b ≡ false)
    both true b h = cc
    both false b h = (refl, h)

pub both_false : {a b : Bool} → a ≡ false → b ≡ false → a || b ≡ false
both_false {a} {b} h h' = rw (h, h') refl

pub not-true : {b : Bool} → not b ≡ true → b ≡ false
not-true {b} h = by_value b h
  where
    by_value : (b : Bool) → not b ≡ true → b ≡ false
    by_value true h = cc
    by_value false h = refl

pub not-false : {b : Bool} → b ≡ false → not b ≡ true
not-false {b} h = rw h refl

pub ltb-false : (a b : ℕ) → ltb a b ≡ false → b ≤ a
ltb-false a b h = ground arith
