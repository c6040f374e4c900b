-- ===== src/Base/Lists.antt =====
-- Lists measured by native numbers, and tests over a whole list.
use Prim.Native.Nat.{ℕ, suc, ◌+◌}
use Prim.Native.Char.{code}
use Prim.Native.String.{String}
use mathlib.Core.Path.{◌≡◌, refl, sym, subst}
use mathlib.Core.Bool.{Bool, true, false, ◌&&◌, ◌||◌}
use mathlib.Core.Option.{Option, none, some}
use mathlib.Core.List.{List, [], ◌∷◌, ◌++◌, map}
use native.Mathlib.Omega.{arith}
use taller_mecario_b.Base.Tests.{if◌then◌else◌, Bool-cases}
use mathlib.Core.Logic.{inl, inr}

-- The characters of a text, as their code points.
abbrev pub code_points : String → List ℕ
code_points String.[] = []
code_points (String.◌∷◌ first rest) = code first ∷ code_points rest

module _ {ℓ} {A : Type ℓ} where
  abbrev pub length : List A → ℕ
  length [] = 0
  length (x ∷ xs) = suc (length xs)

  abbrev pub any : (A → Bool) → List A → Bool
  any p [] = false
  any p (x ∷ xs) = p x || any p xs

  abbrev pub all : (A → Bool) → List A → Bool
  all p [] = true
  all p (x ∷ xs) = p x && all p xs

  -- `filter` by a Boolean test.
  abbrev pub keep : (A → Bool) → List A → List A
  keep p [] = []
  keep p (x ∷ xs) = if p x then x ∷ keep p xs else keep p xs

  abbrev pub find : (A → Bool) → List A → Option A
  find p [] = none
  find p (x ∷ xs) = if p x then some x else find p xs

  pub any-append : (p : A → Bool) (xs ys : List A) → any p (xs ++ ys) ≡ any p xs || any p ys
  any-append p [] ys = refl
  any-append p (x ∷ xs) ys = ground (arith, any-append p xs ys)

  pub all-append : (p : A → Bool) (xs ys : List A) → all p (xs ++ ys) ≡ all p xs && all p ys
  all-append p [] ys = refl
  all-append p (x ∷ xs) ys = ground (arith, all-append p xs ys)

  pub length-append : (xs ys : List A) → length (xs ++ ys) ≡ length xs + length ys
  length-append [] ys = omega arith
  length-append (x ∷ xs) ys = omega (arith, length-append xs ys)

  pub find_sound : (p : A → Bool) (xs : List A) {x : A} → find p xs ≡ some x → p x ≡ true
  find_sound p [] h = cc
  find_sound p (y ∷ xs) {x} h = elim (Bool-cases (p y)) [
    | inl hit ↦
        let same : some y ≡ some x = rw hit at h in
        let it : y ≡ x = cc in subst (λ z. p z ≡ true) it hit
    | inr miss ↦ find_sound p xs (rw miss at h)
  ]

  pub find-none : (p : A → Bool) (xs : List A) → find p xs ≡ none → any p xs ≡ false
  find-none p [] h = refl
  find-none p (x ∷ xs) h = ground (arith, find-none p xs)

  pub find-any : (p : A → Bool) (xs : List A) {x : A} → find p xs ≡ some x → any p xs ≡ true
  find-any p [] h = cc
  find-any p (y ∷ xs) {x} h = ground (arith, find-any p xs {x = x})

  -- The first element that passes a test is the first that passes a narrower one, if it does.
  pub find-narrower :
      (p q : A → Bool) (xs : List A) {x : A}
      → ((y : A) → q y ≡ true → p y ≡ true)
      → find p xs ≡ some x
      → q x ≡ true
      → find q xs ≡ some x
  find-narrower p q [] within h hit = cc
  find-narrower p q (y ∷ xs) {x} within h hit = elim (Bool-cases (p y)) [
    | inl hits ↦
        let first : some y ≡ some x = rw hits at h in
        let it : y ≡ x = cc in
        let hit' : q y ≡ true = subst (λ z. q z ≡ true) (sym it) hit in rw (hit', it) refl
    | inr misses ↦ elim (Bool-cases (q y)) [
      | inl bad ↦ let here = within y bad in absurd (ground (arith, here, misses))
      | inr miss ↦ rw miss (find-narrower p q xs within (rw misses at h) hit)
    ]
  ]

  -- A function that no test sees.
  pub find-map :
      (p : A → Bool) (f : A → A) (xs : List A) {x : A}
      → ((y : A) → p (f y) ≡ p y)
      → find p xs ≡ some x
      → find p (map f xs) ≡ some (f x)
  find-map p f [] same h = cc
  find-map p f (y ∷ xs) {x} same h = elim (Bool-cases (p y)) [
    | inl hits ↦
        let first : some y ≡ some x = rw hits at h in
        let it : y ≡ x = cc in rw (same y, hits, it) refl
    | inr misses ↦ rw (same y, misses) (find-map p f xs same (rw misses at h))
  ]
