-- ===== src/Members/Tests.antt =====
-- A shop with an owner, an administrator and a technician, and requests on it.
use taller_mecario_b.Base.{
  String, true, false, List, [], ◌∷◌, ◌++◌, none, some, ok, find, all, any, keep, not, ◌==◌,
  string_key, nat_key, ◌≡◌, ◌⊎◌, refl,
}
use taller_mecario_b.Collections.{has, get, set}
use taller_mecario_b.Authz.Roles.{RoleCode, owner, admin, technician, tenant, role_key, role_text}
use taller_mecario_b.Authz.Matrix.{RolePermissionRow, list_role_permission_rows}
use taller_mecario_b.Authz.Matrix.Laws.{may_administer}
use taller_mecario_b.Members.Store.{
  Membership, MemberRole, MembershipStatus, active, suspended, Db, AuditRow, AuditOutcome,
  role_assigned, role_revoked, of_roles, of_role, success, denied, suspend,
}
use taller_mecario_b.Members.Tx.{◌>>=◌}
use taller_mecario_b.Members.Access.{
  is_membership, roles_of, fresh_actor_permissions, remaining_active_owners,
  missing_target_authority,
}
use taller_mecario_b.Members.Access.Authority.{may_assign, rows_of_actor}
use taller_mecario_b.Members.Triggers.{
  exists_active_owner, is_role_row, insert_role, delete_role, update_status,
}
use taller_mecario_b.Members.Triggers.Frames.{memberships_of, member_roles_of}
use taller_mecario_b.Members.Triggers.Ages.{AllAged}
use taller_mecario_b.Members.Roles.{
  RequestContext, MemberRolesDto, manage_permission, held_roles, new_row, role_audit, lock_target,
  prepare_change, parse_role, assign_member_role, remove_member_role,
}
use taller_mecario_b.Members.Roles.Effects.{
  assign_member_role-adds, remove_member_role-drops, remove-assign,
}
use taller_mecario_b.Members.Lifecycle.{change_membership_status}
use taller_mecario_b.Members.Requests.{
  Request, assign, remove, change, handle, handle_all, context_of, target_of, named_roles,
}
use taller_mecario_b.Members.Requests.History.{
  handle_all-keeps_owner, handle_all-AllAged, handle-apart,
}
use taller_mecario_b.Members.Requests.Audit.{
  Untouched, handle-audited, handle-authorized, handle-hierarchy,
}

abbrev member : String → String → String → Membership
member id tenant_id user_id = record {
  id = id;
  tenant_id = tenant_id;
  user_id = user_id;
  status = active;
  joined_at = 1;
  suspended_at = none;
  revoked_at = none;
}

abbrev holds : String → String → RoleCode → MemberRole
holds tenant_id id role = record {
  tenant_id = tenant_id;
  membership_id = id;
  role = role;
  assigned_by = "m1";
  assigned_at = 2;
}

abbrev shop : List RolePermissionRow → Db
shop table = record {
  memberships =
      member "m1" "t1" "u1"
      ∷ member "m2" "t1" "u2"
      ∷ member "m3" "t1" "u3"
      ∷ member "n1" "t2" "u1"
      ∷ [];
  member_roles =
      holds "t1" "m1" owner
      ∷ holds "t1" "m2" admin
      ∷ holds "t1" "m3" technician
      ∷ holds "t2" "n1" owner
      ∷ [];
  role_permissions = table;
  audit_logs = [];
}

abbrev gives : RoleCode → String → RolePermissionRow
gives role code = record { permission_code = code; role_code = role; resource_scope = tenant }

-- The rows of the catalogue that the requests below need.
abbrev few : List RolePermissionRow
few =
    gives owner "memberships.manage_staff"
    ∷ gives owner "roles.assign_owner"
    ∷ gives owner "roles.assign_admin"
    ∷ gives owner "roles.assign_staff"
    ∷ gives admin "memberships.manage_staff"
    ∷ gives admin "roles.assign_staff"
    ∷ []

abbrev by : String → String → RequestContext
by id user = record {
  tenant = record { tenant_id = "t1"; user_id = user; membership_id = id };
  meta = record { request_id = "r1"; ip_address = "::1" };
  now = 9;
}

abbrev day : List Request
day =
    assign (by "m1" "u1") "m3" "admin"
    ∷ change (by "m2" "u2") suspend "m1"
    ∷ remove (by "m1" "u1") "m1" "owner"
    ∷ change (by "m1" "u1") suspend "m2"
    ∷ []

abbrev statuses : List Membership → List MembershipStatus
statuses [] = []
statuses (m ∷ ms) = m.status ∷ statuses ms

abbrev outcomes : List AuditRow → List AuditOutcome
outcomes [] = []
outcomes (row ∷ rows) = row.outcome ∷ outcomes rows

-- The day: an assignment, a refusal, another, and a suspension.
day-statuses :
    statuses (handle_all day (shop few)).memberships ≡ active ∷ suspended ∷ active ∷ active ∷ []
unfolding handle_all handle assign_member_role remove_member_role change_membership_status
    prepare_change lock_target parse_role ◌>>=◌ insert_role delete_role update_status roles_of get
    set fresh_actor_permissions missing_target_authority remaining_active_owners
day-statuses = refl

day-outcomes :
    outcomes (handle_all day (shop few)).audit_logs ≡ success ∷ denied ∷ denied ∷ success ∷ []
unfolding handle_all handle assign_member_role remove_member_role change_membership_status
    prepare_change lock_target parse_role ◌>>=◌ insert_role delete_role update_status roles_of get
    set fresh_actor_permissions missing_target_authority remaining_active_owners
day-outcomes = refl

handle_all-keeps_owner_example : exists_active_owner "t1" (handle_all day (shop few)) ≡ true
handle_all-keeps_owner_example = handle_all-keeps_owner "t1" day (shop few) refl

handle_all-AllAged_example : AllAged (shop few).memberships (handle_all day (shop few)).memberships
handle_all-AllAged_example = handle_all-AllAged day (shop few)

abbrev promotion : Request
promotion = assign (by "m1" "u1") "m3" "admin"

handle-apart_example :
    (memberships_of "t2" (handle promotion (shop few)) ≡ memberships_of "t2" (shop few))
    × (member_roles_of "t2" (handle promotion (shop few)) ≡ member_roles_of "t2" (shop few))
handle-apart_example = handle-apart "t2" promotion (shop few) refl

handle-audited_example :
    (handle promotion (shop few) ≡ shop few)
    ⊎ ((row : AuditRow) × ((handle promotion (shop few)).audit_logs ≡ row ∷ [])
        × (row.actor ≡ (context_of promotion).tenant)
        × ((row.outcome ≡ success)
            ⊎ ((row.outcome ≡ denied) × Untouched (shop few) (handle promotion (shop few)))))
handle-audited_example = handle-audited promotion (shop few)

handle-authorized_example :
    Untouched (shop few) (handle promotion (shop few))
    ⊎ ((target : Membership) × (find (is_membership "t1" "m3") (shop few).memberships ≡ some target)
        × ((target_of promotion == "m1") ≡ false)
        × (has manage_permission (fresh_actor_permissions (shop few) (context_of promotion).tenant)
            ≡ true)
        × (all
              (may_assign (fresh_actor_permissions (shop few) (context_of promotion).tenant))
              (named_roles promotion ++ held_roles (roles_of (shop few) "t1" target.id))
            ≡ true))
handle-authorized_example = handle-authorized promotion (shop few)

handle-hierarchy_example :
    Untouched (shop list_role_permission_rows) (handle promotion (shop list_role_permission_rows))
    ⊎ ((target : Membership) × (find
            (is_membership "t1" "m3")
            (shop list_role_permission_rows).memberships
          ≡ some target)
        × (all
              (λ role.
                any
                  (λ (held : MemberRole). may_administer held.role role)
                  (rows_of_actor (shop list_role_permission_rows) (context_of promotion).tenant))
              (named_roles promotion
                ++ held_roles (roles_of (shop list_role_permission_rows) "t1" target.id))
            ≡ true))
handle-hierarchy_example = handle-hierarchy promotion (shop list_role_permission_rows) refl

abbrev promoted_audit : AuditRow
promoted_audit =
    role_audit (by "m1" "u1") role_assigned success "m3" "member_role_management"
      (some (of_roles (technician ∷ []))) (some (of_roles (admin ∷ technician ∷ [])))
      (of_role admin)

abbrev demoted_audit : AuditRow
demoted_audit =
    role_audit (by "m1" "u1") role_revoked success "m3" "member_role_management"
      (some (of_roles (admin ∷ technician ∷ []))) (some (of_roles (technician ∷ [])))
      (of_role admin)

abbrev promoted : Db
promoted = record (shop few) {
  member_roles = (shop few).member_roles ++ new_row (by "m1" "u1") "m3" admin ∷ [];
  audit_logs = promoted_audit ∷ [];
}

abbrev promoted_reply : MemberRolesDto
promoted_reply = record {
  membership_id = "m3";
  status = active;
  roles =
      record { role = admin; assigned_at = 9 } ∷ record { role = technician; assigned_at = 2 } ∷ [];
}

promotion_run :
    assign_member_role (by "m1" "u1") "m3" "admin" (shop few) ≡ (ok promoted_reply, promoted)
unfolding handle_all handle assign_member_role remove_member_role change_membership_status
    prepare_change lock_target parse_role ◌>>=◌ insert_role delete_role update_status roles_of get
    set fresh_actor_permissions missing_target_authority remaining_active_owners
promotion_run = refl

assign_member_role-adds_example :
    (role : RoleCode) × (role_text role ≡ "admin")
    × (has role (held_roles (roles_of (shop few) "t1" "m3")) ≡ false)
    × (promoted.member_roles ≡ (shop few).member_roles ++ new_row (by "m1" "u1") "m3" role ∷ [])
    × (promoted.memberships ≡ (shop few).memberships)
    × (has role (held_roles promoted_reply.roles) ≡ true)
assign_member_role-adds_example =
    assign_member_role-adds (by "m1" "u1") "m3" "admin" (shop few) promoted_reply promoted
      promotion_run

abbrev demoted : Db
demoted = record (shop few) { audit_logs = promoted_audit ∷ demoted_audit ∷ [] }

abbrev demoted_reply : MemberRolesDto
demoted_reply = record {
  membership_id = "m3";
  status = active;
  roles = record { role = technician; assigned_at = 2 } ∷ [];
}

demotion_run : remove_member_role (by "m1" "u1") "m3" "admin" promoted ≡ (ok demoted_reply, demoted)
unfolding handle_all handle assign_member_role remove_member_role change_membership_status
    prepare_change lock_target parse_role ◌>>=◌ insert_role delete_role update_status roles_of get
    set fresh_actor_permissions missing_target_authority remaining_active_owners
demotion_run = refl

remove_member_role-drops_example :
    (role : RoleCode) × (role_text role ≡ "admin")
    × (has role (held_roles (roles_of promoted "t1" "m3")) ≡ true)
    × (demoted.member_roles ≡ keep (λ r. not (is_role_row "t1" "m3" role r)) promoted.member_roles)
    × (demoted.memberships ≡ promoted.memberships)
    × (has role (held_roles demoted_reply.roles) ≡ false)
remove_member_role-drops_example =
    remove_member_role-drops (by "m1" "u1") "m3" "admin" promoted demoted_reply demoted demotion_run

remove-assign_example : demoted.member_roles ≡ (shop few).member_roles
remove-assign_example =
    remove-assign (by "m1" "u1") (by "m1" "u1") "m3" "admin" (shop few) promoted demoted
      promoted_reply demoted_reply refl promotion_run demotion_run
