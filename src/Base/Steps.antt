-- ===== src/Base/Steps.antt =====
-- Code that runs on a state: a step gives its result, a value or the error that was thrown, and the
-- state then. A statement that fails leaves the state to its definition.
pub mod Meets
pub mod Keeps
use taller_mecario_b.Base.Results.{Result, ok, err}
use mathlib.Core.Bool.{Bool, true, false}
use mathlib.Core.Option.{Option, none, some}

abbrev pub Step : Type 0 → Type 0 → Type 0 → Type 0
Step S E A = S → Result E A × S

module _ {S E : Type 0} where
  unfoldable pub return : {A : Type 0} → A → Step S E A
  return a s = (ok a, s)

  unfoldable pub throw : {A : Type 0} → E → Step S E A
  throw e s = (err e, s)

  -- `if (!test) throw e`.
  unfoldable pub check : Bool → E → Step S E (Unit {0})
  check true e s = (ok tt, s)
  check false e s = (err e, s)

  -- A step that reads.
  unfoldable pub query : {A : Type 0} → (S → A) → Step S E A
  query read s = (ok (read s), s)

  -- A step that changes the state.
  unfoldable pub modify : (S → S) → Step S E (Unit {0})
  modify change s = (ok tt, change s)

  abbrev pub proceed : {A B : Type 0} → (A → Step S E B) → Result E A × S → Result E B × S
  proceed next (err e, s) = (err e, s)
  proceed next (ok a, s) = next a s

  abbrev pub rescue : {A V : Type 0} → (V → E) → Result V A × S → Result E A × S
  rescue caught (ok a, after) = (ok a, after)
  rescue caught (err v, after) = (err (caught v), after)

  -- A statement with errors of its own, and the errors that its `catch` throws for them.
  unfoldable pub attempt : {A V : Type 0} → Step S V A → (V → E) → Step S E A
  attempt statement caught s = rescue caught (statement s)

  infixl 5 ◌>>=◌ ◌>>◌
  unfoldable pub ◌>>=◌ : {A B : Type 0} → Step S E A → (A → Step S E B) → Step S E B
  unfolding return throw check query modify attempt
  ◌>>=◌ step next s = proceed next (step s)

  abbrev pub ◌>>◌ : {B : Type 0} → Step S E (Unit {0}) → Step S E B → Step S E B
  step >> next = step >>= λ _. next

  -- `if (!value) throw e`.
  abbrev pub or_throw : {A : Type 0} → E → Option A → Step S E A
  or_throw e none = throw e
  or_throw e (some a) = return a
