-- ===== src/Invitations/Request.antt =====
-- What the invitation commands of src/invitations/service.ts share: their transaction, their transfer
-- object, who may assign a role, their audit rows.
use taller_mecario_b.Base.{
  ℕ, String, Bool, false, ◌&&◌, List, [], ◌∷◌, ◌++◌, Option, none, some, Result, ok, err, find,
  ◌==◌, string_key, nat_key, if◌then◌else◌,
}
use taller_mecario_b.Base.Steps.{Step, return, throw, modify, ◌>>=◌, ◌>>◌, or_throw}
use taller_mecario_b.Authz.Roles.{RoleCode, role_text, role_codes, role_key}
use taller_mecario_b.Authz.Assignment.{role_assignment_permission}
use taller_mecario_b.Authz.Authorize.{
  Grants, Dynamic, AuthzError, PermissionDecision, resolve_permission_decision, is_tenant,
}
use taller_mecario_b.Members.Store.{Actor, RequestMeta}
use taller_mecario_b.Invitations.Store.{
  InvitationStatus, pending, expired, invitation_status_key, Invitation, user, system, AuditOutcome,
  success, denied, text, JsonObject, AuditRow, Db, InvitationError, role_not_allowed, internal,
}

abbrev pub Tx : Type 0 → Type 0
Tx A = Step Db InvitationError A

pub record InvitationDto : Type 0 where
  pub id : String
  pub email : String
  pub role : RoleCode
  pub status : InvitationStatus
  pub expires_at : ℕ
  pub created_at : ℕ
  pub accepted_at : Option ℕ
  pub revoked_at : Option ℕ

-- `parseRole`.
unfoldable pub parse_role : String → Tx RoleCode
parse_role value =
    or_throw (internal "INVITATION_ROLE_UNKNOWN")
      (find (λ role. role_text role == value) role_codes)

abbrev pub effective_status : InvitationStatus → Bool → InvitationStatus
effective_status status is_expired = if status == pending && is_expired then expired else status

-- `toDto` of a row whose `is_expired` column is given.
unfoldable pub to_dto : Invitation → Bool → Tx InvitationDto
unfolding parse_role
to_dto row is_expired = do
  role ← parse_role row.role_code
  return (record {
    id = row.id;
    email = row.email;
    role = role;
    status = effective_status row.status is_expired;
    expires_at = row.expires_at;
    created_at = row.created_at;
    accepted_at = row.accepted_at;
    revoked_at = row.revoked_at;
  })

abbrev pub decided_tenant : Result AuthzError PermissionDecision → Bool
decided_tenant (err e) = false
decided_tenant (ok decision) = is_tenant decision

-- `canAssignRole`: every role's permission is a known code, so that the decision is never an error.
unfoldable pub can_assign_role : Grants → RoleCode → Bool
unfolding resolve_permission_decision
can_assign_role permissions role =
    decided_tenant
      (resolve_permission_decision permissions (Dynamic.text (role_assignment_permission role)))

-- `insertAudit` of one row.
unfoldable pub insert_audit : {E : Type 0} → AuditRow → Step Db E (Unit {0})
insert_audit row = modify (λ (db : Db). record db { audit_logs = db.audit_logs ++ row ∷ [] })

-- `insertAudit`.
unfoldable pub insert_audits : {E : Type 0} → List AuditRow → Step Db E (Unit {0})
insert_audits rows = modify (λ (db : Db). record db { audit_logs = db.audit_logs ++ rows })

-- A tenant request: its context, permissions and metadata, `now()` of its transaction.
pub record RequestContext : Type 0 where
  pub tenant : Actor
  pub permissions : Grants
  pub meta : RequestMeta
  pub now : ℕ

abbrev pub entity : String
entity = "membership_invitation"

-- A row of the request's actor.
abbrev pub actor_audit :
    RequestContext
    → String
    → AuditOutcome
    → Option String
    → String
    → Option JsonObject
    → Option JsonObject
    → Option JsonObject
    → AuditRow
actor_audit context action outcome id reason before after metadata = record {
  tenant_id = some context.tenant.tenant_id;
  actor_type = user;
  actor_user_id = some context.tenant.user_id;
  actor_membership_id = some context.tenant.membership_id;
  action = action;
  outcome = outcome;
  entity_type = entity;
  entity_id = id;
  reason_code = some reason;
  before = before;
  after = after;
  metadata = metadata;
  request_id = context.meta.request_id;
  ip_address = some context.meta.ip_address;
}

abbrev pub status_of : String → JsonObject
status_of status = ("status", text status) ∷ []

abbrev pub required_permission : RoleCode → JsonObject
required_permission role =
    ("target_role", text (role_text role))
    ∷ ("required_permission", text (role_assignment_permission role))
    ∷ []

-- The refusal of a role that the caller may not assign.
abbrev pub refused_audit : RequestContext → String → Option String → RoleCode → AuditRow
refused_audit context action id role =
    actor_audit context action denied id "role_assignment_not_permitted" none none
      (some (required_permission role))

abbrev pub require_assignable : RequestContext → String → Option String → RoleCode → Tx (Unit {0})
require_assignable context action id role =
    if can_assign_role context.permissions role
    then return tt
    else (insert_audit (refused_audit context action id role) >> throw role_not_allowed)

-- A transition that the service materializes for an invitation whose deadline has passed.
abbrev pub expired_audit : RequestMeta → String → Invitation → AuditRow
expired_audit meta by row = record {
  tenant_id = some row.tenant_id;
  actor_type = system;
  actor_user_id = none;
  actor_membership_id = none;
  action = "membership.invitation_expired";
  outcome = success;
  entity_type = entity;
  entity_id = some row.id;
  reason_code = some "membership_invitation";
  before = some (status_of "pending");
  after = some (status_of "expired");
  metadata = some (("materialized_by", text by) ∷ ("target_role", text row.role_code) ∷ []);
  request_id = meta.request_id;
  ip_address = some meta.ip_address;
}

abbrev pub set_expired : Invitation → Invitation
set_expired i = record i { status = expired }

abbrev pub lifted : {A F : Type 0} → (F → InvitationError) → Result F A → Tx A
lifted caught (err e) = throw (caught e)
lifted caught (ok a) = return a
