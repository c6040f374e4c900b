-- ===== src/Members/Tx/Meets.antt =====
-- What a step of a transaction meets: a postcondition of the value and the tables where it returns,
-- and one of the error and the tables where it throws. One rule for each way to build a step.
use taller_mecario_b.Base.{Bool, true, false, [], ◌∷◌, ◌++◌, Result, ok, err, ◌≡◌, refl, sym, subst}
use taller_mecario_b.Members.Store.{Db, MemberError, AuditRow, Violation}
use taller_mecario_b.Members.Tx.{
  Tx, Statement, return, throw, check, query, insert_audit, attempt, caught_as, proceed, ◌>>=◌,
}

abbrev pub Outcome :
    {A : Type 0}
    → (MemberError → Db → Type 0)
    → (A → Db → Type 0)
    → Result MemberError A × Db
    → Type 0
Outcome E Q (ok a, db) = Q a db
Outcome E Q (err e, db) = E e db

pub record Meets {A : Type 0} (E : MemberError → Db → Type 0) (Q : A → Db → Type 0) (step : Tx A)
    (db : Db) : Type 0 where
  pub at : Outcome E Q (step db)

module _ {E : MemberError → Db → Type 0} {db : Db} where
  pub Meets-return : {A : Type 0} {Q : A → Db → Type 0} (a : A) → Q a db → Meets E Q (return a) db
  unfolding return
  Meets-return a q = record { at = q }

  pub Meets-throw :
      {A : Type 0} {Q : A → Db → Type 0} (e : MemberError) → E e db → Meets E Q (throw e) db
  unfolding throw
  Meets-throw e h = record { at = h }

  pub Meets-bind :
      {A B : Type 0} (Q' : A → Db → Type 0) {Q : B → Db → Type 0} (step : Tx A) (next : A → Tx B)
      → Meets E Q' step db
      → ((a : A) (after : Db) → Q' a after → Meets E Q (next a) after)
      → Meets E Q (step >>= next) db
  unfolding ◌>>=◌
  Meets-bind {A} Q' {Q} step next first later = record { at = go (step db) first.at }
    where
      go : (r : Result MemberError A × Db) → Outcome E Q' r → Outcome E Q (proceed next r)
      go (ok a, after) q = (later a after q).at
      go (err e, after) h = h

  pub Meets-check :
      {B : Type 0} {Q : B → Db → Type 0} (test : Bool) (e : MemberError) (next : Unit {0} → Tx B)
      → (test ≡ false → E e db)
      → (test ≡ true → Meets E Q (next tt) db)
      → Meets E Q (check test e >>= next) db
  unfolding ◌>>=◌
  Meets-check true e next failed passed = record { at = (passed refl).at }
  Meets-check false e next failed passed = record { at = failed refl }

  pub Meets-query :
      {A B : Type 0} {Q : B → Db → Type 0} (read : Db → A) (next : A → Tx B)
      → Meets E Q (next (read db)) db
      → Meets E Q (query read >>= next) db
  unfolding ◌>>=◌
  Meets-query read next h = record { at = h.at }

  pub Meets-audit :
      {B : Type 0} {Q : B → Db → Type 0} (row : AuditRow) (next : Unit {0} → Tx B)
      → Meets E Q (next tt) (record db { audit_logs = db.audit_logs ++ row ∷ [] })
      → Meets E Q (insert_audit row >>= next) db
  unfolding ◌>>=◌
  Meets-audit row next h = record { at = h.at }

  pub Meets-attempt :
      {A B : Type 0} {Q : B → Db → Type 0} (statement : Statement A)
      (caught : Violation → MemberError) (next : A → Tx B)
      → ((v : Violation) (after : Db) → statement db ≡ (err v, after) → E (caught v) after)
      → ((a : A) (after : Db) → statement db ≡ (ok a, after) → Meets E Q (next a) after)
      → Meets E Q (attempt statement caught >>= next) db
  unfolding ◌>>=◌
  Meets-attempt {A} {Q = Q} statement caught next failed passed = record {
    at = go (statement db) refl;
  }
    where
      go :
          (r : Result Violation A × Db)
          → statement db ≡ r
          → Outcome E Q (proceed next (caught_as caught r))
      go (ok a, after) h = (passed a after h).at
      go (err v, after) h = failed v after h

  -- A step that leaves the tables as they are, and a fact of its value.
  pub Meets-reads :
      {A B : Type 0} (R : A → Type 0) {Q : B → Db → Type 0} (step : Tx A) (next : A → Tx B)
      → Meets E (λ a after. (after ≡ db) × R a) step db
      → ((a : A) → R a → Meets E Q (next a) db)
      → Meets E Q (step >>= next) db
  Meets-reads {B} R {Q} step next first later =
      Meets-bind (λ a after. (after ≡ db) × R a) step next first
        (λ a after (same, r). subst (λ d. Meets E Q (next a) d) (sym same) (later a r))
