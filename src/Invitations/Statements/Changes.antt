-- ===== src/Invitations/Statements/Changes.antt =====
-- The facts of the tables that the statements on invitations keep, however they are used, and one of
-- them: an invitation is created pending, keeps its identity, and ends once.
use taller_mecario_b.Base.{
  ℕ, String, Bool, true, false, List, [], ◌∷◌, ◌++◌, Result, ok, err, ◌==◌, ◌≡◌, refl, sym, subst,
  bind_ok, ◌∙◌, ==_sound, and_true, require_ok, then_ok, string_key, nat_key,
}
use taller_mecario_b.Base.Steps.Keeps.{Keeps}
use taller_mecario_b.Invitations.Store.{
  Invitation, pending, invitation_status_key, Db, Violation, mi_immutable_columns,
  mi_terminal_state,
}
use taller_mecario_b.Invitations.Statements.{
  update_invitations, insert_invitation, insertable, inserted, lifecycle, same_identity, Updated,
  update_row, update_rows, updated,
}

-- An update that ends what it sets.
abbrev pub Ends : (Invitation → Invitation) → Type 0
Ends set = (i : Invitation) → ((set i).status == pending) ≡ false

-- A fact that depends on the table of invitations only and that its two statements keep.
pub record Kept (P : Db → Type 0) : Type 0 where
  pub others : (db after : Db) → after.invitations ≡ db.invitations → P db → P after
  pub updates :
      (now : ℕ) (where_ : Invitation → Bool) (set : Invitation → Invitation)
      → Ends set
      → Keeps P (update_invitations now where_ set)
  pub inserts : (now : ℕ) (row : Invitation) → Keeps P (insert_invitation now row)

-- The columns that no update changes.
pub record Fixed : Type 0 where
  pub id : String
  pub tenant_id : String
  pub email : String
  pub email_normalized : String
  pub role_code : String
  pub token_hash : String
  pub expires_at : ℕ
  pub invited_by_membership_id : String
  pub created_at : ℕ

abbrev pub fixed : Invitation → Fixed
fixed i = record {
  id = i.id;
  tenant_id = i.tenant_id;
  email = i.email;
  email_normalized = i.email_normalized;
  role_code = i.role_code;
  token_hash = i.token_hash;
  expires_at = i.expires_at;
  invited_by_membership_id = i.invited_by_membership_id;
  created_at = i.created_at;
}

same_identity-fixed : (i j : Invitation) → same_identity i j ≡ true → fixed i ≡ fixed j
same_identity-fixed i j h =
    let (h1, by_created) = and_true {b = i.created_at == j.created_at} h in
    let (h2, by_inviter) =
      and_true {b = i.invited_by_membership_id == j.invited_by_membership_id} h1 in
    let (h3, by_deadline) = and_true {b = i.expires_at == j.expires_at} h2 in
    let (h4, by_token) = and_true {b = i.token_hash == j.token_hash} h3 in
    let (h5, by_role) = and_true {b = i.role_code == j.role_code} h4 in
    let (h6, by_normalized) = and_true {b = i.email_normalized == j.email_normalized} h5 in
    let (h7, by_email) = and_true {b = i.email == j.email} h6 in
    let (by_id, by_tenant) = and_true {b = i.tenant_id == j.tenant_id} h7 in
    rw
      (
        ==_sound i.id j.id by_id,
        ==_sound i.tenant_id j.tenant_id by_tenant,
        ==_sound i.email j.email by_email,
        ==_sound i.email_normalized j.email_normalized by_normalized,
        ==_sound i.role_code j.role_code by_role,
        ==_sound i.token_hash j.token_hash by_token,
        ==_sound i.expires_at j.expires_at by_deadline,
        ==_sound i.invited_by_membership_id j.invited_by_membership_id by_inviter,
        ==_sound i.created_at j.created_at by_created,
      )
      refl

-- The rows of a table later: those that had ended are as they were, the others are as they were or
-- have ended, and the new rows stand behind them.
pub data Advanced : List Invitation → List Invitation → Type 0 where
  created : (later : List Invitation) → Advanced [] later
  same :
      (i : Invitation) {rows later : List Invitation}
      → Advanced rows later
      → Advanced (i ∷ rows) (i ∷ later)
  ended :
      (i j : Invitation) {rows later : List Invitation}
      → i.status ≡ pending
      → fixed i ≡ fixed j
      → (j.status == pending) ≡ false
      → Advanced rows later
      → Advanced (i ∷ rows) (j ∷ later)

pub Advanced-same : (rows : List Invitation) → Advanced rows rows
Advanced-same [] = created []
Advanced-same (i ∷ rows) = same i (Advanced-same rows)

Advanced-append : (rows new : List Invitation) → Advanced rows (rows ++ new)
Advanced-append [] new = created new
Advanced-append (i ∷ rows) new = same i (Advanced-append rows new)

pub Advanced-trans : {a b c : List Invitation} → Advanced a b → Advanced b c → Advanced a c
Advanced-trans (created later) q = created _
Advanced-trans (same i p) (same _ q) = same i (Advanced-trans p q)
Advanced-trans (same i p) (ended _ j was id not q) = ended i j was id not (Advanced-trans p q)
Advanced-trans (ended i j was id not p) (same _ q) = ended i j was id not (Advanced-trans p q)
Advanced-trans (ended i j was id not p) (ended _ k was' id' not' q) =
    ended i k was (id ∙ id') not' (Advanced-trans p q)

-- What an update that is not refused found.
lifecycle-ended :
    (db : Db) (now : ℕ) (i new : Invitation)
    → lifecycle db now i new ≡ ok tt
    → (fixed i ≡ fixed new) × (i.status ≡ pending)
unfolding lifecycle
lifecycle-ended db now i new h =
    let (alike, h1) = require_ok (same_identity i new) mi_immutable_columns _ h in
    let (was, h2) = require_ok (i.status == pending) mi_terminal_state _ h1 in
    (same_identity-fixed i new alike, ==_sound i.status pending was)

-- The rows of a table and what an update makes of them, one by one.
pub data Moved : List Invitation → List Invitation → Type 0 where
  none_left : Moved [] []
  kept_row :
      (i : Invitation) {rows later : List Invitation}
      → Moved rows later
      → Moved (i ∷ rows) (i ∷ later)
  ended_row :
      (i j : Invitation) {rows later : List Invitation}
      → i.status ≡ pending
      → fixed i ≡ fixed j
      → (j.status == pending) ≡ false
      → Moved rows later
      → Moved (i ∷ rows) (j ∷ later)

Moved-Advanced : {rows later : List Invitation} → Moved rows later → Advanced rows later
Moved-Advanced none_left = created []
Moved-Advanced (kept_row i m) = same i (Moved-Advanced m)
Moved-Advanced (ended_row i j was alike not m) = ended i j was alike not (Moved-Advanced m)

pub update_rows-Moved :
    (db : Db) (now : ℕ) (where_ : Invitation → Bool) (set : Invitation → Invitation)
    → Ends set
    → (rows : List Invitation) {u : Updated} → update_rows db now where_ set rows ≡ ok u
    → Moved rows u.table
update_rows-Moved db now where_ set ends [] {u} h =
    let it : ◌≡◌ {A = Updated} (record { table = []; rows = [] }) u = cc in
    subst (λ (w : Updated). Moved [] w.table) it none_left
update_rows-Moved db now where_ set ends (i ∷ is) {u} h =
    let (rest, ran, h') = bind_ok (update_rows db now where_ set is) _ h in
    by_test (where_ i) rest (update_rows-Moved db now where_ set ends is ran) h'
  where
    by_test :
        (b : Bool) (rest : Updated)
        → Moved is rest.table
        → update_row db now b set i rest ≡ ok u
        → Moved (i ∷ is) u.table
    by_test false rest p h =
        let it : ◌≡◌ {A = Updated} (record { table = i ∷ rest.table; rows = rest.rows }) u = cc in
        subst (λ (w : Updated). Moved (i ∷ is) w.table) it (kept_row i p)
    by_test true rest p h =
        let (held, h2) = then_ok (lifecycle db now i (set i)) _ h in
        let it : ◌≡◌ {A = Updated} (record { table = set i ∷ rest.table; rows = set i ∷ rest.rows })
            u =
          cc in
        let (alike, was) = lifecycle-ended db now i (set i) held in
        subst (λ (w : Updated). Moved (i ∷ is) w.table) it
          (ended_row i (set i) was alike (ends i) p)

-- A fact of the table is kept where both statements' effects keep it.
module _ (F : List Invitation → Type 0)
    (moves : (rows later : List Invitation) → Moved rows later → F rows → F later)
    (appends : (now : ℕ) (row : Invitation) (db : Db)
      → insertable now row db ≡ ok tt
      → F db.invitations
      → F (db.invitations ++ row ∷ [])) where
  pub of_table-Kept : Kept (λ db. F db.invitations)
  unfolding update_invitations insert_invitation
  of_table-Kept = record {
    others = λ db after untouched p. subst F (sym untouched) p;
    updates = λ now where_ set ends. record {
      kept = λ db p.
          by_update db now where_ set ends p (update_rows db now where_ set db.invitations) refl;
    };
    inserts =
        λ now row. record { kept = λ db p. by_insert now db row p (insertable now row db) refl };
  }
    where
      by_update :
          (db : Db) (now : ℕ) (where_ : Invitation → Bool) (set : Invitation → Invitation)
          → Ends set
          → F db.invitations
          → (r : Result Violation Updated) → update_rows db now where_ set db.invitations ≡ r
          → F (updated db r).1.invitations
      by_update db now where_ set ends p (err v) h = p
      by_update db now where_ set ends p (ok u) h =
          moves db.invitations u.table (update_rows-Moved db now where_ set ends db.invitations h) p

      by_insert :
          (now : ℕ) (db : Db) (row : Invitation)
          → F db.invitations
          → (r : Result Violation (Unit {0})) → insertable now row db ≡ r
          → F (inserted row db r).1.invitations
      by_insert now db row p (err v) h = p
      by_insert now db row p (ok done) h = appends now row db h p

pub Advanced-Kept : (start : List Invitation) → Kept (λ db. Advanced start db.invitations)
Advanced-Kept start =
    of_table-Kept (Advanced start) (λ rows later m p. Advanced-trans p (Moved-Advanced m))
      (λ now row db fits p. Advanced-trans p (Advanced-append db.invitations (row ∷ [])))
