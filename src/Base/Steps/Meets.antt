-- ===== src/Base/Steps/Meets.antt =====
-- What a step meets: a postcondition of the value and the state where it returns, and one of the error
-- and the state where it throws. One rule for each way to build a step.
use taller_mecario_b.Base.Results.{Result, ok, err}
use mathlib.Core.Bool.{Bool, true, false}
use mathlib.Core.Option.{Option, none, some}
use taller_mecario_b.Base.Tests.{if◌then◌else◌}
use mathlib.Core.Path.{◌≡◌, refl, sym, subst}
use taller_mecario_b.Base.Steps.{
  Step, return, throw, check, query, modify, attempt, rescue, proceed, ◌>>=◌, or_throw,
}

module _ {S E : Type 0} where
  abbrev pub Outcome : {A : Type 0} → (E → S → Type 0) → (A → S → Type 0) → Result E A × S → Type 0
  Outcome F Q (ok a, s) = Q a s
  Outcome F Q (err e, s) = F e s

pub record Meets {S E A : Type 0} (F : E → S → Type 0) (Q : A → S → Type 0) (step : Step S E A)
    (s : S) : Type 0 where
  pub at : Outcome F Q (step s)

module _ {S E : Type 0} {F : E → S → Type 0} {s : S} where
  pub Meets-return : {A : Type 0} {Q : A → S → Type 0} (a : A) → Q a s → Meets F Q (return a) s
  unfolding return
  Meets-return a q = record { at = q }

  pub Meets-throw : {A : Type 0} {Q : A → S → Type 0} (e : E) → F e s → Meets F Q (throw e) s
  unfolding throw
  Meets-throw e h = record { at = h }

  pub Meets-bind :
      {A B : Type 0} (R : A → S → Type 0) {Q : B → S → Type 0} (step : Step S E A)
      (next : A → Step S E B)
      → Meets F R step s
      → ((a : A) (after : S) → R a after → Meets F Q (next a) after)
      → Meets F Q (step >>= next) s
  unfolding ◌>>=◌
  Meets-bind {A} R {Q} step next first later = record { at = go (step s) first.at }
    where
      go : (r : Result E A × S) → Outcome F R r → Outcome F Q (proceed next r)
      go (ok a, after) q = (later a after q).at
      go (err e, after) h = h

  pub Meets-check :
      {B : Type 0} {Q : B → S → Type 0} (test : Bool) (e : E) (next : Unit {0} → Step S E B)
      → (test ≡ false → F e s)
      → (test ≡ true → Meets F Q (next tt) s)
      → Meets F Q (check test e >>= next) s
  unfolding ◌>>=◌
  Meets-check true e next failed passed = record { at = (passed refl).at }
  Meets-check false e next failed passed = record { at = failed refl }

  pub Meets-query :
      {A B : Type 0} {Q : B → S → Type 0} (read : S → A) (next : A → Step S E B)
      → Meets F Q (next (read s)) s
      → Meets F Q (query read >>= next) s
  unfolding ◌>>=◌
  Meets-query read next h = record { at = h.at }

  pub Meets-modify :
      {B : Type 0} {Q : B → S → Type 0} (change : S → S) (next : Unit {0} → Step S E B)
      → Meets F Q (next tt) (change s)
      → Meets F Q (modify change >>= next) s
  unfolding ◌>>=◌
  Meets-modify change next h = record { at = h.at }

  pub Meets-attempt :
      {A B V : Type 0} {Q : B → S → Type 0} (statement : Step S V A) (caught : V → E)
      (next : A → Step S E B)
      → ((v : V) (after : S) → statement s ≡ (err v, after) → F (caught v) after)
      → ((a : A) (after : S) → statement s ≡ (ok a, after) → Meets F Q (next a) after)
      → Meets F Q (attempt statement caught >>= next) s
  unfolding ◌>>=◌
  Meets-attempt {A} {V = V} {Q = Q} statement caught next failed passed = record {
    at = go (statement s) refl;
  }
    where
      go : (r : Result V A × S) → statement s ≡ r → Outcome F Q (proceed next (rescue caught r))
      go (ok a, after) h = (passed a after h).at
      go (err v, after) h = failed v after h

  -- A statement whose success determines the state after it.
  pub Meets-writes :
      {A B V : Type 0} {Q : B → S → Type 0} (R : A → S → Type 0) (statement : Step S V A)
      (caught : V → E) (next : A → Step S E B)
      → ((v : V) (after : S) → statement s ≡ (err v, after) → F (caught v) after)
      → ((a : A) (after : S) → statement s ≡ (ok a, after) → (t : S) × (after ≡ t) × R a t)
      → ((a : A) (t : S) → R a t → Meets F Q (next a) t)
      → Meets F Q (attempt statement caught >>= next) s
  Meets-writes {Q = Q} R statement caught next failed inverted later =
      Meets-attempt statement caught next failed (λ a after h.
        let (t, it, r) = inverted a after h in
        subst (λ st. Meets F Q (next a) st) (sym it) (later a t r))

  -- At an equal state.
  pub Meets-at :
      {A : Type 0} {Q : A → S → Type 0} {step : Step S E A} {after : S}
      → after ≡ s
      → Meets F Q step s
      → Meets F Q step after
  Meets-at {Q = Q} {step = step} it m = subst (λ st. Meets F Q step st) (sym it) m

pub or_throw-Meets :
    {S E A : Type 0} {F : E → S → Type 0} {Q : A → S → Type 0} {s : S} (e : E) {o : Option A}
    → (o ≡ none → F e s)
    → ((a : A) → o ≡ some a → Q a s)
    → Meets F Q (or_throw e o) s
or_throw-Meets e {o = none} failed passed = Meets-throw e (failed refl)
or_throw-Meets e {o = some a} failed passed = Meets-return a (passed a refl)

pub or_throw-then :
    {S E A B : Type 0} {F : E → S → Type 0} {Q : B → S → Type 0} {s : S} (e : E) (o : Option A)
    {next : A → Step S E B}
    → F e s
    → ((a : A) → o ≡ some a → Meets F Q (next a) s)
    → Meets F Q (or_throw e o >>= next) s
unfolding ◌>>=◌
or_throw-then e none failed passed = record { at = failed }
or_throw-then e (some a) failed passed = record { at = (passed a refl).at }

pub if-Meets :
    {S E A : Type 0} {F : E → S → Type 0} {Q : A → S → Type 0} {s : S} (b : Bool) {x y : Step S E A}
    → (b ≡ true → Meets F Q x s)
    → (b ≡ false → Meets F Q y s)
    → Meets F Q (if b then x else y) s
if-Meets true f g = f refl
if-Meets false f g = g refl
