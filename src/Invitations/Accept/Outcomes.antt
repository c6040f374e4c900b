-- ===== src/Invitations/Accept/Outcomes.antt =====
-- What the body of an acceptance leaves, by how it ends.
use taller_mecario_b.Base.{
  String, Bool, true, false, ◌&&◌, List, [], ◌∷◌, ◌++◌, some, none, any, find, leb, ltb, map, ◌==◌,
  string_key, nat_key, ◌≡◌, ◌⊎◌,
}
use taller_mecario_b.Authz.Roles.{RoleCode, role_text, role_codes}
use taller_mecario_b.Members.Store.{Membership}
use taller_mecario_b.Invitations.Store.{
  Invitation, pending, expired, invitation_status_key, User, active, AuditRow, Db, Violation,
  InvitationErrorCode, invitation_expired, invitation_email_mismatch, InvitationError, api,
  database,
}
use taller_mecario_b.Invitations.Statements.{is_leased}
use taller_mecario_b.Invitations.Statements.Effects.{put}
use taller_mecario_b.Invitations.Request.{expired_audit, set_expired}
use taller_mecario_b.Invitations.Users.{is_barred, is_user_of, new_user, provisioned_audit}
use taller_mecario_b.Invitations.Joining.{
  AcceptInput, AcceptResult, new_membership, new_role, is_locked, set_accepted, acceptance_audits,
  mismatch_audit,
}
use taller_mecario_b.Invitations.Accept.{Thrown, thrown, commit_then_throw}

-- The tables with the users and the audit rows that provisioning left.
abbrev pub provisioned : Db → List User → List AuditRow → Db
provisioned db users audits = record db { users = users; audit_logs = audits }

-- The user of the identity, with the users and the audit rows then: one that was there, active, or a new
-- one, whose provisioning is audited. Its lifecycle has not disabled it.
pub data Own (input : AcceptInput) (db : Db) (user_id : String)
    : List User → List AuditRow → Type 0 where
  known_user :
      (u : User)
      → any (is_barred input.identity) db.identity_states ≡ false
      → find (is_user_of input.identity) db.users ≡ some u
      → u.id ≡ user_id
      → u.status ≡ active
      → Own input db user_id db.users db.audit_logs
  provisioned_user :
      any (is_barred input.identity) db.identity_states ≡ false
      → find (is_user_of input.identity) db.users ≡ none
      → user_id ≡ input.proposed_user_id
      → Own input db user_id
          (db.users ++ new_user input.identity input.profile input.proposed_user_id ∷ [])
          (db.audit_logs
            ++ provisioned_audit input.identity input.proposed_user_id input.meta.request_id ∷ [])

-- Tables that differ only by what provisioning left.
abbrev pub Provisioning : AcceptInput → Db → String → Db → Type 0
Provisioning input db user_id after =
    (users : List User) × ((audits : List AuditRow) × (after ≡ provisioned db users audits)
      × Own input db user_id users audits)

-- What an acceptance that succeeds found, and the tables that it leaves.
pub record Joined (input : AcceptInput) (db : Db) (result : AcceptResult) (after : Db)
    : Type 0 where
  pub i : Invitation
  pub user_id : String
  pub role : RoleCode
  pub found : find (λ (j : Invitation). j.token_hash == input.token_hash) db.invitations ≡ some i
  pub own_email : i.email_normalized ≡ input.profile.email
  pub was_pending : i.status ≡ pending
  pub in_time :
      (leb i.expires_at input.read_at ≡ false) × (ltb input.written_at i.expires_at ≡ true)
  pub not_leased : is_leased input.written_at i.tenant_id i.id db ≡ false
  pub not_member :
      any (λ (m : Membership). m.tenant_id == i.tenant_id && m.user_id == user_id) db.memberships
      ≡ false
  pub role_of : find (λ r. role_text r == i.role_code) role_codes ≡ some role
  pub memberships_after : after.memberships ≡ db.memberships ++ new_membership input i user_id ∷ []
  pub roles_after : after.member_roles ≡ db.member_roles ++ new_role input i role ∷ []
  pub accepted_after :
      find (λ (j : Invitation). j.token_hash == input.token_hash) after.invitations
      ≡ some (set_accepted input user_id i)
  pub users : List User
  pub audits : List AuditRow
  pub own_user : Own input db user_id users audits
  pub tables : after ≡ record db {
    users = users;
    memberships = db.memberships ++ new_membership input i user_id ∷ [];
    member_roles = db.member_roles ++ new_role input i role ∷ [];
    invitations = map (put (is_locked i) (set_accepted input user_id)) db.invitations;
    audit_logs = audits ++ acceptance_audits input i user_id role;
  }
  pub replied :
      (result.membership_id ≡ input.membership_id)
      × (result.tenant_id ≡ i.tenant_id)
      × (result.roles ≡ role ∷ [])

-- What a refusal that is committed leaves: one audit row, and no member.
pub record Durable (input : AcceptInput) (db : Db) (code : InvitationErrorCode) (after : Db)
    : Type 0 where
  pub i : Invitation
  pub found : find (λ (j : Invitation). j.token_hash == input.token_hash) db.invitations ≡ some i
  pub user_id : String
  pub users : List User
  pub audits : List AuditRow
  pub own_user : Own input db user_id users audits
  pub why :
      ((code ≡ invitation_email_mismatch)
        × (i.email_normalized == input.profile.email ≡ false)
        × (after ≡ record db {
          users = users;
          audit_logs = audits ++ mismatch_audit input i user_id ∷ [];
        }))
      ⊎ ((code ≡ invitation_expired)
          × (i.status ≡ pending)
          × (leb i.expires_at input.read_at ≡ true)
          × (after ≡ record db {
            users = users;
            invitations = map (put (is_locked i) set_expired) db.invitations;
            audit_logs = audits ++ expired_audit input.meta "invitation_accept" i ∷ [];
          }))

-- The errors of the two refusals that are committed, and those of the tables.
abbrev pub is_special : InvitationError → Bool
is_special (api invitation_email_mismatch) = true
is_special (api invitation_expired) = true
is_special (database v) = true
is_special _ = false

-- The errors that are rolled back: of a statement that the tables refuse, of an invitation that has
-- expired before, and any other.
pub data Rejected (input : AcceptInput) (db : Db) : InvitationError → Type 0 where
  by_statement : (v : Violation) → Rejected input db (database v)
  expired_before :
      (i : Invitation)
      → find (λ (j : Invitation). j.token_hash == input.token_hash) db.invitations ≡ some i
      → i.status ≡ expired
      → Rejected input db (api invitation_expired)
  by_check : (e : InvitationError) → is_special e ≡ false → Rejected input db e

abbrev pub Failed : AcceptInput → Db → Thrown → Db → Type 0
Failed input db (thrown e) after = Rejected input db e
Failed input db (commit_then_throw code) after = Durable input db code after
