-- ===== src/Members/Access.antt =====
-- The reads shared by the membership commands: src/memberships/membership-access.ts. The owner-set
-- lock has no effect on the tables: a transaction is one step here (Members/Requests.antt).
pub mod Authority
pub mod Listing
use Prim.Native.String.{compare}
use text.Mathlib.Text.{is_le}
use taller_mecario_b.Base.{
  ℕ, String, Bool, not, ◌&&◌, List, [], ◌∷◌, ◌++◌, Option, none, some, any, keep, length, ◌==◌,
  string_key, if◌then◌else◌, map,
}
use taller_mecario_b.Collections.{has, add, get, frozen_set, frozen_map}
use taller_mecario_b.Authz.Roles.{RoleCode, owner, tenant, role_codes, role_key, scope_key}
use taller_mecario_b.Authz.Assignment.{role_assignment_permission}
use taller_mecario_b.Authz.Matrix.{RolePermissionRow}
use taller_mecario_b.Members.Store.{Membership, MemberRole, active, status_key, Actor, Db}

pub record MemberRoleDto : Type 0 where
  pub role : RoleCode
  pub assigned_at : ℕ

-- The membership with this id in this tenant.
abbrev pub is_membership : String → String → Membership → Bool
is_membership tenant_id id m = m.id == id && m.tenant_id == tenant_id

-- `mr.tenant_id = … AND mr.membership_id = …`.
abbrev pub is_role_of : String → String → MemberRole → Bool
is_role_of tenant_id id r = r.tenant_id == tenant_id && r.membership_id == id

abbrev pub role_entry : RoleCode → Option ℕ → List MemberRoleDto
role_entry role none = []
role_entry role (some at) = record { role = role; assigned_at = at } ∷ []

-- The filter and the map of `orderedRoles`, over ROLE_CODES.
roles_in_order : List (RoleCode × ℕ) → List RoleCode → List MemberRoleDto
roles_in_order held [] = []
roles_in_order held (role ∷ roles) = role_entry role (get role held) ++ roles_in_order held roles

unfoldable pub ordered_roles : List (RoleCode × ℕ) → List MemberRoleDto
unfolding roles_in_order get
ordered_roles held = roles_in_order held role_codes

unfoldable pub roles_of : Db → String → String → List MemberRoleDto
unfolding ordered_roles frozen_map
roles_of db tenant_id id = ordered_roles (
    frozen_map (
      map (λ (r : MemberRole). (r.role, r.assigned_at))
        (keep (is_role_of tenant_id id) db.member_roles)))

-- The tenant-wide codes that the rows of `role_permissions` give to a role.
abbrev pub codes_of_role : RoleCode → List RolePermissionRow → List String
codes_of_role role rows =
    map (λ (p : RolePermissionRow). p.permission_code)
      (keep (λ (p : RolePermissionRow). p.role_code == role && p.resource_scope == tenant) rows)

codes_of_roles : List MemberRole → List RolePermissionRow → List String
codes_of_roles [] rows = []
codes_of_roles (r ∷ rs) rows = codes_of_role r.role rows ++ codes_of_roles rs rows

-- The actor's own active membership.
abbrev pub is_active_actor : Actor → Membership → Bool
is_active_actor actor m =
    is_membership actor.tenant_id actor.membership_id m
    && (m.user_id == actor.user_id && m.status == active)

unfoldable pub fresh_actor_permissions : Db → Actor → List String
unfolding codes_of_roles frozen_set
fresh_actor_permissions db actor =
    if any (is_active_actor actor) db.memberships
    then frozen_set (
        codes_of_roles (keep (is_role_of actor.tenant_id actor.membership_id) db.member_roles)
          db.role_permissions)
    else []

-- The membership of the row is active.
abbrev pub has_active_membership : List Membership → MemberRole → Bool
has_active_membership memberships r =
    any (λ m. is_membership r.tenant_id r.membership_id m && m.status == active) memberships

-- An owner row of the tenant whose membership is active.
abbrev pub is_active_owner : String → List Membership → MemberRole → Bool
is_active_owner tenant_id memberships r =
    r.tenant_id == tenant_id && (r.role == owner && has_active_membership memberships r)

unfoldable pub remaining_active_owners : Db → String → String → ℕ
remaining_active_owners db tenant_id excluded = length (
    keep (λ r. is_active_owner tenant_id db.memberships r && not (r.membership_id == excluded))
      db.member_roles)

-- The permissions that the given roles require, each once, in the order of the roles.
required_for : List String → List RoleCode → List String
required_for seen [] = seen
required_for seen (role ∷ roles) = required_for (add (role_assignment_permission role) seen) roles

-- `[...].filter((code) => !permissions.has(code))`.
abbrev pub missing_from : List String → List String → List String
missing_from permissions = keep (λ code. not (has code permissions))

insert_sorted : String → List String → List String
insert_sorted s [] = s ∷ []
insert_sorted s (t ∷ ts) = if is_le (compare s t) then s ∷ t ∷ ts else t ∷ insert_sorted s ts

-- `.sort()`: permission codes are ASCII, so the order of their bytes is that of their code units.
unfoldable pub sort : List String → List String
unfolding insert_sorted
sort [] = []
sort (s ∷ ss) = insert_sorted s (sort ss)

-- `missingTargetAuthority`, which the role commands write out for the changed role and the held ones.
unfoldable pub missing_target_authority : List String → List RoleCode → List String
unfolding required_for sort
missing_target_authority permissions roles = sort (missing_from permissions (required_for [] roles))
