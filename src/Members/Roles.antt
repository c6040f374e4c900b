-- ===== src/Members/Roles.antt =====
-- Role management of an existing membership: src/memberships/roles-service.ts.
pub mod Prepare
pub mod Specs
pub mod Effects
use taller_mecario_b.Base.{
  ℕ, String, Bool, true, false, not, List, [], ◌∷◌, ◌++◌, Option, none, some, Result, ok, err, any,
  find, ◌==◌, string_key, nat_key, map, nat_eqb, ◌&&◌, length,
}
use taller_mecario_b.Collections.{has}
use taller_mecario_b.Authz.Roles.{RoleCode, owner, role_key, role_codes, role_text}
use taller_mecario_b.Members.Store.{
  Membership, MemberRole, MembershipStatus, active, status_key, Db, Actor, RequestMeta, AuditRow,
  AuditAction, role_assigned, role_revoked, AuditOutcome, success, denied, of_roles, of_role,
  of_role_missing, MemberError, membership_not_found, membership_not_active, role_already_assigned,
  role_not_assigned, last_owner_required, role_assignment_not_allowed,
  self_role_modification_forbidden, action_forbidden, permission_denied, member_role_unknown,
  database_error, Violation, mr_membership_not_active, mr_last_active_owner, AuditMetadata,
  AuditState,
}
use taller_mecario_b.Members.Access.{
  MemberRoleDto, is_membership, roles_of, fresh_actor_permissions, remaining_active_owners,
  missing_target_authority,
}
use taller_mecario_b.Members.Tx.{
  Tx, ◌>>=◌, ◌>>◌, return, throw, check, query, insert_audit, attempt,
}
use taller_mecario_b.Members.Triggers.{insert_role, delete_role}

pub record RequestContext : Type 0 where
  pub tenant : Actor
  pub meta : RequestMeta
  pub now : ℕ

pub record MemberRolesDto : Type 0 where
  pub membership_id : String
  pub status : MembershipStatus
  pub roles : List MemberRoleDto

abbrev pub manage_permission : String
manage_permission = "memberships.manage_staff"

-- The roles of the transfer objects.
abbrev pub held_roles : List MemberRoleDto → List RoleCode
held_roles = map (λ (held : MemberRoleDto). held.role)

abbrev pub or_not_found : Option Membership → Tx Membership
or_not_found none = throw membership_not_found
or_not_found (some m) = return m

-- `lockTarget` and `readTarget`: the lock has no effect on the tables.
unfoldable pub lock_target : String → String → Tx Membership
lock_target tenant_id id db = or_not_found (find (is_membership tenant_id id) db.memberships) db

-- The errors that their route declares durable and replies to itself.
abbrev pub is_durable : MemberError → Bool
is_durable role_assignment_not_allowed = true
is_durable self_role_modification_forbidden = true
is_durable action_forbidden = true
is_durable _ = false

abbrev pub inserting : Violation → MemberError
inserting mr_membership_not_active = membership_not_active
inserting v = database_error v

abbrev pub deleting : Violation → MemberError
deleting mr_last_active_owner = last_owner_required
deleting v = database_error v

abbrev pub role_audit :
    RequestContext
    → AuditAction
    → AuditOutcome
    → String
    → String
    → Option AuditState
    → Option AuditState
    → AuditMetadata
    → AuditRow
role_audit context action outcome target reason before after metadata = record {
  actor = context.tenant;
  action = action;
  outcome = outcome;
  entity_id = target;
  reason_code = reason;
  before = before;
  after = after;
  metadata = metadata;
  meta = context.meta;
}

abbrev pub refuse_self : RequestContext → AuditAction → String → RoleCode → Tx (Unit {0})
refuse_self context action id role = do
  insert_audit
      (role_audit context action denied id "self_role_modification" none none (of_role role))
  throw self_role_modification_forbidden

abbrev pub refuse_missing :
    RequestContext → AuditAction → String → RoleCode → List String → Tx (Unit {0})
refuse_missing context action id role [] = return tt
refuse_missing context action id role (code ∷ codes) = do
  insert_audit (
      role_audit context action denied id "role_assignment_not_permitted" none none
        (of_role_missing role (code ∷ codes)))
  throw role_assignment_not_allowed

abbrev pub when : Bool → Tx (Unit {0}) → Tx (Unit {0})
when true step = step
when false step = return tt

-- `prepareChange`: the guards that both commands share. It gives the target and its roles.
unfoldable pub prepare_change :
    RequestContext → AuditAction → String → RoleCode → Tx (Membership × List MemberRoleDto)
prepare_change context action id role = do
  when (id == context.tenant.membership_id) (refuse_self context action id role)
  permissions ← query (λ db. fresh_actor_permissions db context.tenant)
  target ← lock_target context.tenant.tenant_id id
  roles ← query (λ db. roles_of db context.tenant.tenant_id target.id)
  check (has manage_permission permissions) (permission_denied manage_permission)
  refuse_missing context action target.id role
      (missing_target_authority permissions (role ∷ held_roles roles))
  check (target.status == active) membership_not_active
  return (target, roles)

abbrev pub or_unknown : Option RoleCode → Tx RoleCode
or_unknown none = throw member_role_unknown
or_unknown (some role) = return role

-- `parseRole`.
unfoldable pub parse_role : String → Tx RoleCode
parse_role value db = or_unknown (find (λ code. role_text code == value) role_codes) db

abbrev pub dto : Membership → List MemberRoleDto → MemberRolesDto
dto target roles = record { membership_id = target.id; status = target.status; roles = roles }

unfoldable pub list_member_roles : RequestContext → String → Tx MemberRolesDto
list_member_roles context id = do
  target ← lock_target context.tenant.tenant_id id
  roles ← query (λ db. roles_of db context.tenant.tenant_id target.id)
  return (dto target roles)

-- `INSERT INTO membership_roles … SELECT`, for the actor.
abbrev pub new_row : RequestContext → String → RoleCode → MemberRole
new_row context id role = record {
  tenant_id = context.tenant.tenant_id;
  membership_id = id;
  role = role;
  assigned_by = context.tenant.membership_id;
  assigned_at = context.now;
}

unfoldable pub assign_member_role : RequestContext → String → String → Tx MemberRolesDto
assign_member_role context id role_input = do
  role ← parse_role role_input
  (target, roles) ← prepare_change context role_assigned id role
  check (not (any (λ held. held == role) (held_roles roles))) role_already_assigned
  inserted ← attempt (insert_role (new_row context target.id role)) inserting
  check (nat_eqb inserted 1) role_already_assigned
  after ← query (λ db. roles_of db context.tenant.tenant_id target.id)
  insert_audit (
      role_audit context role_assigned success target.id "member_role_management"
        (some (of_roles (held_roles roles))) (some (of_roles (held_roles after))) (of_role role))
  return (dto target after)

unfoldable pub remove_member_role : RequestContext → String → String → Tx MemberRolesDto
remove_member_role context id role_input = do
  role ← parse_role role_input
  (target, roles) ← prepare_change context role_revoked id role
  check (any (λ held. held == role) (held_roles roles)) role_not_assigned
  owners ← query (λ db. remaining_active_owners db context.tenant.tenant_id target.id)
  check (not (role == owner && nat_eqb owners 0)) last_owner_required
  deleted ← attempt (delete_role context.tenant.tenant_id target.id role) deleting
  check deleted role_not_assigned
  after ← query (λ db. roles_of db context.tenant.tenant_id target.id)
  insert_audit (
      role_audit context role_revoked success target.id "member_role_management"
        (some (of_roles (held_roles roles))) (some (of_roles (held_roles after))) (of_role role))
  return (dto target after)
