-- ===== src/Invitations/Joining.antt =====
-- The inputs of an acceptance, the rows that it writes and the statements that write them
-- (acceptInvitation of src/invitations/service.ts). The token's hash, the fresh ids, the instants that
-- the statements read and whether a lock timed out or a COMMIT failed are inputs.
use taller_mecario_b.Base.{
  ℕ, String, Bool, true, false, ◌&&◌, List, [], ◌∷◌, ◌++◌, Option, none, some, ok, err, any, find,
  ◌==◌, string_key, nat_key, if◌then◌else◌,
}
use taller_mecario_b.Base.Steps.{Step}
use taller_mecario_b.Authz.Roles.{RoleCode, role_text}
use taller_mecario_b.Members.Store.{Membership, MembershipStatus, MemberRole, RequestMeta}
use taller_mecario_b.Invitations.Store.{
  pending, accepted, invitation_status_key, Invitation, Workshop, user, success, denied, text,
  texts, JsonObject, AuditRow, Db, Violation, memberships_pkey, memberships_tenant_user_key,
  membership_roles_pk, lock_not_available, mr_membership_not_active,
}
use taller_mecario_b.Invitations.Token.{is_token_hash}
use taller_mecario_b.Invitations.Users.{Identity, Profile}
use taller_mecario_b.Invitations.Request.{entity, status_of}

pub record AcceptInput : Type 0 where
  pub identity : Identity
  pub profile : Profile
  pub token_hash : String
  pub meta : RequestMeta
  pub proposed_user_id : String
  pub membership_id : String
  pub now : ℕ
  pub read_at : ℕ
  pub written_at : ℕ
  pub lock_times_out : Bool
  pub commit_fails : Bool

pub record AcceptResult : Type 0 where
  pub membership_id : String
  pub tenant_id : String
  pub roles : List RoleCode
  pub workshop : Workshop

abbrev is_active : MembershipStatus → Bool
is_active MembershipStatus.active = true
is_active _ = false

-- The locked row of a token: the lock may time out.
unfoldable pub lock_invitation :
    Bool → String → String → String → Step Db Violation (Option Invitation)
lock_invitation true id tenant_id token_hash db = (err lock_not_available, db)
lock_invitation false id tenant_id token_hash db = (
  ok (
      find
        (λ (i : Invitation). i.id == id && (i.tenant_id == tenant_id && i.token_hash == token_hash))
        db.invitations),
  db,
)

-- app.bootstrap_resolve_membership_invitation.
unfoldable pub resolve_invitation : String → Db → Option Invitation
resolve_invitation token_hash db =
    if is_token_hash token_hash
    then find (λ (i : Invitation). i.token_hash == token_hash) db.invitations
    else none

unfoldable pub insert_membership : Membership → Step Db Violation (Unit {0})
insert_membership row db =
    if any (λ (m : Membership). m.id == row.id) db.memberships
    then (err memberships_pkey, db)
    else if any (λ (m : Membership). m.tenant_id == row.tenant_id && m.user_id == row.user_id)
        db.memberships
    then (err memberships_tenant_user_key, db)
    else (ok tt, record db { memberships = db.memberships ++ row ∷ [] })

-- The key of membership_roles and the trigger that asks for an active membership.
unfoldable pub insert_membership_role : MemberRole → Step Db Violation (Unit {0})
insert_membership_role row db =
    if any
      (λ (r : MemberRole).
        r.tenant_id == row.tenant_id
        && (r.membership_id == row.membership_id && role_text r.role == role_text row.role))
      db.member_roles
    then (err membership_roles_pk, db)
    else if any
        (λ (m : Membership).
          m.tenant_id == row.tenant_id && (m.id == row.membership_id && is_active m.status))
        db.memberships
    then (ok tt, record db { member_roles = db.member_roles ++ row ∷ [] })
    else (err mr_membership_not_active, db)

abbrev pub new_membership : AcceptInput → Invitation → String → Membership
new_membership input i user_id = record {
  id = input.membership_id;
  tenant_id = i.tenant_id;
  user_id = user_id;
  status = MembershipStatus.active;
  joined_at = input.now;
  suspended_at = none;
  revoked_at = none;
}

abbrev pub new_role : AcceptInput → Invitation → RoleCode → MemberRole
new_role input i role = record {
  tenant_id = i.tenant_id;
  membership_id = input.membership_id;
  role = role;
  assigned_by = i.invited_by_membership_id;
  assigned_at = input.now;
}

abbrev pub is_locked : Invitation → Invitation → Bool
is_locked i j = j.id == i.id && (j.tenant_id == i.tenant_id && j.status == pending)

abbrev pub set_accepted : AcceptInput → String → Invitation → Invitation
set_accepted input user_id i = record i {
  status = accepted;
  accepted_at = some input.written_at;
  accepted_by_user_id = some user_id;
  accepted_membership_id = some input.membership_id;
}

abbrev pub success_audit :
    AcceptInput
    → Invitation
    → String
    → String
    → String
    → String
    → Option JsonObject
    → JsonObject
    → Option JsonObject
    → AuditRow
success_audit input i user_id action entity_type id before after metadata = record {
  tenant_id = some i.tenant_id;
  actor_type = user;
  actor_user_id = some user_id;
  actor_membership_id = some input.membership_id;
  action = action;
  outcome = success;
  entity_type = entity_type;
  entity_id = some id;
  reason_code = some "membership_invitation";
  before = before;
  after = some after;
  metadata = metadata;
  request_id = input.meta.request_id;
  ip_address = some input.meta.ip_address;
}

abbrev pub acceptance_audits : AcceptInput → Invitation → String → RoleCode → List AuditRow
acceptance_audits input i user_id role =
    success_audit input i user_id "membership.invitation_accepted" entity i.id
      (some (status_of "pending"))
      (("status", text "accepted") ∷ ("accepted_membership_id", text input.membership_id) ∷ []) none
    ∷ success_audit input i user_id "membership.activated" "membership" input.membership_id none
        (("status", text "active") ∷ ("user_id", text user_id) ∷ [])
        (some (("invitation_id", text i.id) ∷ []))
    ∷ success_audit input i user_id "role.assigned" "membership_role" input.membership_id
        (some (("roles", texts []) ∷ [])) (("roles", texts (role_text role ∷ [])) ∷ [])
        (some (
          ("assigned_by_membership_id", text i.invited_by_membership_id)
          ∷ ("invitation_id", text i.id)
          ∷ []))
    ∷ []

abbrev pub mismatch_audit : AcceptInput → Invitation → String → AuditRow
mismatch_audit input i user_id = record {
  tenant_id = some i.tenant_id;
  actor_type = user;
  actor_user_id = some user_id;
  actor_membership_id = none;
  action = "membership.invitation_accepted";
  outcome = denied;
  entity_type = entity;
  entity_id = some i.id;
  reason_code = some "invitation_email_mismatch";
  before = none;
  after = none;
  metadata = none;
  request_id = input.meta.request_id;
  ip_address = some input.meta.ip_address;
}
