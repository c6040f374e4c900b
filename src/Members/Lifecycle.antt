-- ===== src/Members/Lifecycle.antt =====
-- The status commands on an existing membership: src/memberships/lifecycle-service.ts.
pub mod Specs
use taller_mecario_b.Base.{
  ℕ, String, Bool, true, false, not, List, [], ◌∷◌, ◌++◌, Option, none, some, Result, ok, err, any,
  find, ◌==◌, string_key, nat_key, map, ◌&&◌,
}
use taller_mecario_b.Collections.{has}
use taller_mecario_b.Authz.Roles.{RoleCode, owner}
use taller_mecario_b.Members.Store.{
  Membership, MembershipStatus, active, suspended, revoked, status_key, MembershipCommand, suspend,
  revoke, AuditAction, membership_suspended, membership_revoked, AuditOutcome, success, denied,
  AuditState, of_status, AuditMetadata, of_command, of_command_roles, of_command_missing, AuditRow,
  MemberError, last_owner_required, invalid_state_transition, action_forbidden,
  status_update_failed, permission_denied, database_error, Violation, m_last_active_owner,
}
use taller_mecario_b.Members.Access.{
  MemberRoleDto, roles_of, fresh_actor_permissions, missing_target_authority,
}
use taller_mecario_b.Members.Tx.{
  Tx, ◌>>=◌, ◌>>◌, return, throw, check, query, insert_audit, attempt,
}
use taller_mecario_b.Members.Triggers.{update_status}
use taller_mecario_b.Members.Roles.{
  RequestContext, manage_permission, held_roles, lock_target, role_audit, when,
}

pub record MembershipDto : Type 0 where
  pub membership_id : String
  pub status : MembershipStatus
  pub joined_at : ℕ
  pub suspended_at : Option ℕ
  pub revoked_at : Option ℕ
  pub roles : List MemberRoleDto

-- `TRANSITIONS`.
abbrev pub transition_action : MembershipCommand → AuditAction
transition_action suspend = membership_suspended
transition_action revoke = membership_revoked

abbrev pub transition_to : MembershipCommand → MembershipStatus
transition_to suspend = suspended
transition_to revoke = revoked

abbrev pub transition_from : MembershipCommand → List MembershipStatus
transition_from suspend = active ∷ []
transition_from revoke = active ∷ suspended ∷ []

-- `toDto`.
abbrev pub to_dto : Membership → List MemberRoleDto → MembershipDto
to_dto row roles = record {
  membership_id = row.id;
  status = row.status;
  joined_at = row.joined_at;
  suspended_at = row.suspended_at;
  revoked_at = row.revoked_at;
  roles = roles;
}

unfoldable pub get_membership : RequestContext → String → Tx MembershipDto
get_membership context id = do
  row ← lock_target context.tenant.tenant_id id
  roles ← query (λ db. roles_of db context.tenant.tenant_id row.id)
  return (to_dto row roles)

abbrev pub refuse_self : RequestContext → MembershipCommand → String → Tx (Unit {0})
refuse_self context command id = do
  insert_audit (
      role_audit context (transition_action command) denied id "self_membership_modification" none
        none (of_command command))
  throw action_forbidden

abbrev pub refuse_missing :
    RequestContext → MembershipCommand → String → List RoleCode → List String → Tx (Unit {0})
refuse_missing context command id held [] = return tt
refuse_missing context command id held (code ∷ codes) = do
  insert_audit (
      role_audit context (transition_action command) denied id "membership_management_not_permitted"
        none none (of_command_missing command held (code ∷ codes)))
  throw action_forbidden

abbrev pub updating : Violation → MemberError
updating m_last_active_owner = last_owner_required
updating v = database_error v

abbrev pub or_failed : Option Membership → Tx Membership
or_failed none = throw status_update_failed
or_failed (some row) = return row

unfoldable pub change_membership_status :
    RequestContext → MembershipCommand → String → Tx MembershipDto
change_membership_status context command id = do
  when (id == context.tenant.membership_id) (refuse_self context command id)
  permissions ← query (λ db. fresh_actor_permissions db context.tenant)
  target ← lock_target context.tenant.tenant_id id
  roles ← query (λ db. roles_of db context.tenant.tenant_id target.id)
  check (has manage_permission permissions) (permission_denied manage_permission)
  refuse_missing context command target.id (held_roles roles)
      (missing_target_authority permissions (held_roles roles))
  check (has target.status (transition_from command)) invalid_state_transition
  found ←
      attempt
        (update_status context.tenant.tenant_id target.id target.status (transition_to command)
          context.now)
        updating
  updated ← or_failed found
  insert_audit (
      role_audit context (transition_action command) success target.id "member_status_management"
        (some (of_status target.status)) (some (of_status updated.status))
        (of_command_roles command (held_roles roles)))
  return (to_dto updated roles)
