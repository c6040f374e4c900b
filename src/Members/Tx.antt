-- ===== src/Members/Tx.antt =====
-- Code of src/memberships on the request's open transaction: a step gives its result, a value or the
-- error that was thrown, and the tables as the transaction sees them then.
pub mod Meets
use taller_mecario_b.Base.{Bool, true, false, List, [], ◌∷◌, ◌++◌, Result, ok, err}
use taller_mecario_b.Members.Store.{Db, MemberError, AuditRow, Violation}

abbrev pub Tx : Type 0 → Type 0
Tx A = Db → Result MemberError A × Db

unfoldable pub return : {A : Type 0} → A → Tx A
return a db = (ok a, db)

unfoldable pub throw : {A : Type 0} → MemberError → Tx A
throw e db = (err e, db)

-- `if (!test) throw e`.
unfoldable pub check : Bool → MemberError → Tx (Unit {0})
check true e db = (ok tt, db)
check false e db = (err e, db)

-- A statement that reads.
unfoldable pub query : {A : Type 0} → (Db → A) → Tx A
query read db = (ok (read db), db)

-- `insertAudit`.
unfoldable pub insert_audit : AuditRow → Tx (Unit {0})
insert_audit row db = (ok tt, record db { audit_logs = db.audit_logs ++ row ∷ [] })

-- A statement that writes: its result, or the violation that was raised.
abbrev pub Statement : Type 0 → Type 0
Statement A = Db → Result Violation A × Db

abbrev pub caught_as :
    {A : Type 0} → (Violation → MemberError) → Result Violation A × Db → Result MemberError A × Db
caught_as caught (ok a, after) = (ok a, after)
caught_as caught (err v, after) = (err (caught v), after)

-- A statement inside a command, with the errors that its `catch` maps.
unfoldable pub attempt : {A : Type 0} → Statement A → (Violation → MemberError) → Tx A
attempt statement caught db = caught_as caught (statement db)

abbrev pub proceed :
    {A B : Type 0} → (A → Tx B) → Result MemberError A × Db → Result MemberError B × Db
proceed next (err e, db) = (err e, db)
proceed next (ok a, db) = next a db

infixl 5 ◌>>=◌ ◌>>◌
unfoldable pub ◌>>=◌ : {A B : Type 0} → Tx A → (A → Tx B) → Tx B
unfolding return throw check query insert_audit attempt
◌>>=◌ step next db = proceed next (step db)

abbrev pub ◌>>◌ : {B : Type 0} → Tx (Unit {0}) → Tx B → Tx B
step >> next = step >>= λ _. next
