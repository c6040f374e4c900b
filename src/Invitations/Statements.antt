-- ===== src/Invitations/Statements.antt =====
-- The statements on membership_invitations with their trigger, app.enforce_membership_invitation_lifecycle
-- of drizzle/0009_s1_04_invitation_delivery_lease.sql, and their unique indexes. `now` is the instant that
-- clock_timestamp() reads.
pub mod Changes
pub mod Keys
pub mod Effects
use taller_mecario_b.Base.{
  ℕ, String, Bool, true, false, ◌&&◌, ◌||◌, not, List, [], ◌∷◌, ◌++◌, Option, none, some, Result,
  ok, err, require, ◌>>=◌, ◌>>◌, any, ltb, leb, ◌==◌, string_key, nat_key, if◌then◌else◌,
}
use taller_mecario_b.Authz.Roles.{role_text}
use taller_mecario_b.Members.Store.{Membership, MemberRole}
use taller_mecario_b.Invitations.Store.{
  InvitationStatus, pending, accepted, expired, invitation_status_key, Invitation, Delivery, Lease,
  Db, Violation, mi_created_pending, mi_immutable_columns, mi_terminal_state,
  mi_delivery_in_progress, mi_expire_before_deadline, mi_accept_after_deadline,
  mi_accepted_membership_mismatch, mi_accepted_role_missing, membership_invitations_pkey,
  mi_token_hash_key, mi_one_pending_per_email_uq, mi_invited_by_fk, mi_token_hash_format_check,
  mi_expiry_after_creation_check,
}
use taller_mecario_b.Invitations.Token.{is_token_hash}

-- A lease that has not run out.
abbrev pub is_valid : ℕ → Option Lease → Bool
is_valid now none = false
is_valid now (some lease) = ltb now lease.expires_at

abbrev pub is_delivery_of : String → String → Delivery → Bool
is_delivery_of tenant_id id d = d.tenant_id == tenant_id && d.invitation_id == id

-- An email delivery of the invitation holds a valid lease.
abbrev pub is_leased : ℕ → String → String → Db → Bool
is_leased now tenant_id id db =
    any (λ d. is_delivery_of tenant_id id d && is_valid now d.lease) db.deliveries

abbrev pub same_identity : Invitation → Invitation → Bool
same_identity old new =
    old.id == new.id
    && old.tenant_id == new.tenant_id
    && old.email == new.email
    && old.email_normalized == new.email_normalized
    && old.role_code == new.role_code
    && old.token_hash == new.token_hash
    && old.expires_at == new.expires_at
    && old.invited_by_membership_id == new.invited_by_membership_id
    && old.created_at == new.created_at

abbrev is_id : Option String → String → Bool
is_id none id = false
is_id (some own) id = own == id

abbrev pub has_accepted_membership : Db → Invitation → Bool
has_accepted_membership db new =
    any
      (λ (m : Membership).
        m.tenant_id == new.tenant_id
        && (is_id new.accepted_membership_id m.id && is_id new.accepted_by_user_id m.user_id))
      db.memberships

abbrev pub has_accepted_role : Db → Invitation → Bool
has_accepted_role db new =
    any
      (λ (r : MemberRole).
        r.tenant_id == new.tenant_id
        && (is_id new.accepted_membership_id r.membership_id && role_text r.role == new.role_code))
      db.member_roles

abbrev pub implies : Bool → Bool → Bool
implies true b = b
implies false b = true

-- The trigger's checks of an update.
unfoldable pub lifecycle : Db → ℕ → Invitation → Invitation → Result Violation (Unit {0})
lifecycle db now old new = do
  require (same_identity old new) mi_immutable_columns
  require (old.status == pending) mi_terminal_state
  require (new.status == pending || not (is_leased now old.tenant_id old.id db))
      mi_delivery_in_progress
  require (implies (new.status == expired) (leb old.expires_at now)) mi_expire_before_deadline
  require (implies (new.status == accepted) (ltb now old.expires_at)) mi_accept_after_deadline
  require (implies (new.status == accepted) (has_accepted_membership db new))
      mi_accepted_membership_mismatch
  require (implies (new.status == accepted) (has_accepted_role db new)) mi_accepted_role_missing

-- The table after an update and the rows that it returns.
pub record Updated : Type 0 where
  pub table : List Invitation
  pub rows : List Invitation

-- One row in front of the others, which were updated.
abbrev pub update_row :
    Db → ℕ → Bool → (Invitation → Invitation) → Invitation → Updated → Result Violation Updated
update_row db now false set i rest = ok (record { table = i ∷ rest.table; rows = rest.rows })
update_row db now true set i rest = do
  lifecycle db now i (set i)
  ok (record { table = set i ∷ rest.table; rows = set i ∷ rest.rows })

abbrev pub update_rows :
    Db
    → ℕ
    → (Invitation → Bool)
    → (Invitation → Invitation)
    → List Invitation
    → Result Violation Updated
update_rows db now where_ set [] = ok (record { table = []; rows = [] })
update_rows db now where_ set (i ∷ is) = do
  rest ← update_rows db now where_ set is
  update_row db now (where_ i) set i rest

abbrev pub with_invitations : Db → List Invitation → Db
with_invitations db rows = record db { invitations = rows }

abbrev pub updated : Db → Result Violation Updated → Result Violation (List Invitation) × Db
updated db (err v) = (err v, db)
updated db (ok u) = (ok u.rows, with_invitations db u.table)

-- `UPDATE membership_invitations SET … WHERE … RETURNING`.
unfoldable pub update_invitations :
    ℕ
    → (Invitation → Bool)
    → (Invitation → Invitation)
    → Db
    → Result Violation (List Invitation) × Db
update_invitations now where_ set db = updated db (update_rows db now where_ set db.invitations)

abbrev pub is_pending_for : String → String → Invitation → Bool
is_pending_for tenant_id email i =
    i.tenant_id == tenant_id && (i.email_normalized == email && i.status == pending)

-- The checks of an insertion: the trigger, the CHECKs that can fail, the unique indexes, the reference to the inviter.
unfoldable pub insertable : ℕ → Invitation → Db → Result Violation (Unit {0})
insertable now row db = do
  require (row.status == pending) mi_created_pending
  require (ltb now row.expires_at) mi_created_pending
  require (is_token_hash row.token_hash) mi_token_hash_format_check
  require (ltb row.created_at row.expires_at) mi_expiry_after_creation_check
  require (not (any (λ i. i.id == row.id) db.invitations)) membership_invitations_pkey
  require (not (any (λ i. i.token_hash == row.token_hash) db.invitations)) mi_token_hash_key
  require (not (any (is_pending_for row.tenant_id row.email_normalized) db.invitations))
      mi_one_pending_per_email_uq
  require
      (any
        (λ (m : Membership). m.tenant_id == row.tenant_id && m.id == row.invited_by_membership_id)
        db.memberships)
      mi_invited_by_fk

abbrev pub inserted :
    Invitation → Db → Result Violation (Unit {0}) → Result Violation Invitation × Db
inserted row db (err v) = (err v, db)
inserted row db (ok done) = (ok row, with_invitations db (db.invitations ++ row ∷ []))

-- `INSERT INTO membership_invitations … RETURNING`.
unfoldable pub insert_invitation : ℕ → Invitation → Db → Result Violation Invitation × Db
insert_invitation now row db = inserted row db (insertable now row db)
