-- ===== src/Base/Steps/Keeps.antt =====
-- A step keeps a fact of the state, whether it returns or throws. One rule for each way to build a step.
use taller_mecario_b.Base.Results.{Result, ok, err}
use mathlib.Core.Bool.{Bool, true, false}
use taller_mecario_b.Base.Steps.{
  Step, return, throw, check, query, modify, attempt, rescue, proceed, ◌>>=◌,
}

pub record Keeps {S E A : Type 0} (P : S → Type 0) (step : Step S E A) : Type 0 where
  pub kept : (s : S) → P s → P (step s).1

module _ {S E : Type 0} {P : S → Type 0} where
  pub Keeps-return : {A : Type 0} (a : A) → Keeps {E = E} P (return a)
  unfolding return
  Keeps-return a = record { kept = λ s p. p }

  pub Keeps-throw : {A : Type 0} (e : E) → Keeps {A = A} P (throw e)
  unfolding throw
  Keeps-throw e = record { kept = λ s p. p }

  pub Keeps-check : (test : Bool) (e : E) → Keeps P (check test e)
  unfolding check
  Keeps-check true e = record { kept = λ s p. p }
  Keeps-check false e = record { kept = λ s p. p }

  pub Keeps-query : {A : Type 0} (read : S → A) → Keeps {E = E} P (query read)
  unfolding query
  Keeps-query read = record { kept = λ s p. p }

  pub Keeps-modify :
      (change : S → S) → ((s : S) → P s → P (change s)) → Keeps {E = E} P (modify change)
  unfolding modify
  Keeps-modify change kept = record { kept = kept }

  pub Keeps-attempt :
      {A V : Type 0} {statement : Step S V A} (caught : V → E)
      → Keeps P statement
      → Keeps P (attempt statement caught)
  unfolding attempt
  Keeps-attempt {A} {V} {statement} caught inner = record {
    kept = λ s p. go (statement s) (inner.kept s p);
  }
    where
      go : (r : Result V A × S) → P r.1 → P (rescue caught r).1
      go (ok a, after) q = q
      go (err v, after) q = q

  pub Keeps-bind :
      {A B : Type 0} {step : Step S E A} {next : A → Step S E B}
      → Keeps P step
      → ((a : A) → Keeps P (next a))
      → Keeps P (step >>= next)
  unfolding ◌>>=◌
  Keeps-bind {A} {step = step} {next} first later = record {
    kept = λ s p. go (step s) (first.kept s p);
  }
    where
      go : (r : Result E A × S) → P r.1 → P (proceed next r).1
      go (ok a, after) q = (later a).kept after q
      go (err e, after) q = q
