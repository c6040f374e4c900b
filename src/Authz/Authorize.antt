-- ===== src/Authz/Authorize.antt =====
-- Authorization by permission code: the pure functions of src/authz/authorize.ts. A read-only map
-- of grants is the list of its entries (Collections.antt).
pub mod Grouping
pub mod Effective
pub mod Decisions
use taller_mecario_b.Base.{
  String, Bool, true, false, List, [], ◌∷◌, ◌++◌, Option, none, some, Result, ok, err, ◌>>=◌, ◌>>◌,
  require, find, ◌==◌, string_key, if◌then◌else◌,
}
use mathlib.Core.Option
use taller_mecario_b.Collections.{has, get, set, frozen_set, frozen_map}
use taller_mecario_b.Authz.Roles.{
  RoleCode, ResourceScope, RestrictedScope, role_text, scope_text, resource_scopes, role_codes,
  restricted_key,
}
use taller_mecario_b.Authz.Matrix.{permission_codes}
use taller_mecario_b.Authz.Grants.{
  PermissionGrant, tenant_wide, restricted, combine_permission_scopes, freeze_grant,
}

pub data AuthzError : Type 0 where
  permission_denied : String → AuthzError
  unknown_permission unknown_resource_scope unknown_role invalid_requirement : AuthzError

-- A value of type `unknown`: a text, or anything else.
pub data Dynamic : Type 0 where
  text : String → Dynamic
  other : Dynamic

abbrev pub Grants : Type 0
Grants = List (String × PermissionGrant)

unfoldable pub is_permission_code : Dynamic → Bool
is_permission_code (text value) = has value permission_codes
is_permission_code other = false

-- A permission code is the text itself.
unfoldable pub parse_permission_code : Dynamic → Result AuthzError String
unfolding is_permission_code
parse_permission_code (text value) =
    if is_permission_code (text value) then ok value else err unknown_permission
parse_permission_code other = err unknown_permission

abbrev or_throw {ℓ} : {A : Type ℓ} → AuthzError → Option A → Result AuthzError A
or_throw e none = err e
or_throw e (some a) = ok a

unfoldable pub parse_resource_scope : Dynamic → Result AuthzError ResourceScope
parse_resource_scope (text value) =
    or_throw unknown_resource_scope (find (λ scope. scope_text scope == value) resource_scopes)
parse_resource_scope other = err unknown_resource_scope

unfoldable pub parse_role_code : Dynamic → Result AuthzError RoleCode
parse_role_code (text value) =
    or_throw unknown_role (find (λ role. role_text role == value) role_codes)
parse_role_code other = err unknown_role

pub record PermissionGrantRow : Type 0 where
  pub permission_code : String
  pub resource_scope : String

abbrev pub ScopesByPermission : Type 0
ScopesByPermission = List (String × List ResourceScope)

-- `scopes.push(resourceScope)`, or a new entry.
abbrev pub push_scope : String → ResourceScope → ScopesByPermission → ScopesByPermission
push_scope code scope m = elim (get code m) [
  | none ↦ set code (scope ∷ []) m
  | some scopes ↦ set code (scopes ++ scope ∷ []) m
]

-- The first loop of `buildPermissionGrantMap`.
pub group_rows : ScopesByPermission → List PermissionGrantRow → Result AuthzError ScopesByPermission
unfolding get set
group_rows m [] = ok m
group_rows m (row ∷ rows) = do
  code ← parse_permission_code (text row.permission_code)
  scope ← parse_resource_scope (text row.resource_scope)
  group_rows (push_scope code scope m) rows

abbrev pub grant_entry : String → Option (List ResourceScope) → Grants
grant_entry code none = []
grant_entry code (some scopes) = elim (combine_permission_scopes scopes) [
  | none ↦ []
  | some grant ↦ (code, freeze_grant grant) ∷ []
]

-- The second loop, over PERMISSION_CODES.
pub grant_entries : ScopesByPermission → List String → Grants
grant_entries m [] = []
grant_entries m (code ∷ rest) = grant_entry code (get code m) ++ grant_entries m rest

unfoldable pub build_permission_grant_map : List PermissionGrantRow → Result AuthzError Grants
unfolding group_rows grant_entries parse_permission_code parse_resource_scope frozen_map
build_permission_grant_map rows = do
  scopes_by_permission ← group_rows [] rows
  ok (frozen_map (grant_entries scopes_by_permission permission_codes))

pub data PermissionDecision : Type 0 where
  denied : PermissionDecision
  tenant : PermissionDecision
  resource : List RestrictedScope → PermissionDecision

-- A grant with no scope is no grant.
abbrev pub decide_grant : Option PermissionGrant → PermissionDecision
decide_grant none = denied
decide_grant (some tenant_wide) = PermissionDecision.tenant
decide_grant (some (restricted [])) = denied
decide_grant (some (restricted (s ∷ scopes))) = resource (frozen_set (s ∷ scopes))

unfoldable pub resolve_permission_decision : Grants → Dynamic → Result AuthzError PermissionDecision
unfolding parse_permission_code get frozen_set
resolve_permission_decision permissions code = do
  permission ← parse_permission_code code
  ok (decide_grant (get permission permissions))

abbrev pub is_tenant : PermissionDecision → Bool
is_tenant PermissionDecision.tenant = true
is_tenant _ = false

unfoldable pub require_tenant_permission : Grants → String → Result AuthzError (Unit {0})
unfolding resolve_permission_decision
require_tenant_permission permissions code = do
  decision ← resolve_permission_decision permissions (text code)
  require (is_tenant decision) (permission_denied code)

-- The scope of a route's requirement: 'tenant' or 'resource'.
pub data RequirementScope : Type 0 where
  whole_tenant one_resource : RequirementScope

pub record PermissionRequirement : Type 0 where
  pub permission : String
  pub scope : RequirementScope

abbrev requirement_scope : Dynamic → Result AuthzError RequirementScope
requirement_scope (text value) =
    if value == "tenant"
    then ok whole_tenant
    else if value == "resource"
    then ok one_resource
    else err invalid_requirement
requirement_scope other = err invalid_requirement

unfoldable pub define_permission_requirement :
    Dynamic → Dynamic → Result AuthzError PermissionRequirement
unfolding parse_permission_code
define_permission_requirement permission scope = do
  code ← parse_permission_code permission
  kind ← requirement_scope scope
  ok (record { permission = code; scope = kind })

pub data RequirementDecision : Type 0 where
  denied : String → RequirementDecision
  allowed : String → RequirementDecision
  resource_check_required : String → List RestrictedScope → RequirementDecision

abbrev pub decide_requirement : String → RequirementScope → PermissionDecision → RequirementDecision
decide_requirement permission scope PermissionDecision.tenant = allowed permission
decide_requirement permission one_resource (resource scopes) =
    resource_check_required permission scopes
decide_requirement permission whole_tenant (resource scopes) = RequirementDecision.denied permission
decide_requirement permission scope PermissionDecision.denied =
    RequirementDecision.denied permission

unfoldable pub authorize_permission_requirement :
    Grants → PermissionRequirement → Result AuthzError RequirementDecision
unfolding resolve_permission_decision parse_permission_code
authorize_permission_requirement permissions requirement = do
  permission ← parse_permission_code (text requirement.permission)
  decision ← resolve_permission_decision permissions (text permission)
  ok (decide_requirement permission requirement.scope decision)
