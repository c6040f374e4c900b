-- ===== src/Authz/Authorize/Decisions.antt =====
-- The decisions on a route's requirement, stated on the rows from which the grants were built:
-- requireTenantPermission and authorizePermissionRequirement of src/authz/authorize.ts.
use taller_mecario_b.Base.{
  String, Bool, true, false, ◌||◌, List, ok, err, ◌≡◌, ap, require, arith, if◌then◌else◌,
  string_key,
}
use taller_mecario_b.Collections.{has, frozen_set}
use taller_mecario_b.Authz.Roles.{ResourceScope, tenant, restricted_key}
use taller_mecario_b.Authz.Matrix.{permission_codes}
use taller_mecario_b.Authz.Grants.Laws.{held_scopes, grant_of}
use taller_mecario_b.Authz.Authorize.{
  permission_denied, Grants, PermissionGrantRow, text, build_permission_grant_map, decide_grant,
  decide_requirement, is_tenant, PermissionDecision, resource, resolve_permission_decision,
  require_tenant_permission, RequirementScope, whole_tenant, one_resource, RequirementDecision,
  allowed, resource_check_required, authorize_permission_requirement,
}
use taller_mecario_b.Authz.Authorize.Grouping.{parse_permission_code-known}
use taller_mecario_b.Authz.Authorize.Effective.{holds, get-build}

-- What the documents promise of a requirement: a grant of the tenant allows; any other grant leaves
-- a check of the resource to do, and only where the requirement is of one resource.
abbrev pub promised : RequirementScope → String → Bool → Bool → Bool → RequirementDecision
promised scope code true a q = allowed code
promised whole_tenant code false a q = RequirementDecision.denied code
promised one_resource code false a q =
    if a || q
    then resource_check_required code (held_scopes a q)
    else RequirementDecision.denied code

abbrev pub decision_of : Bool → Bool → Bool → PermissionDecision
decision_of true a q = PermissionDecision.tenant
decision_of false a q = if a || q then resource (held_scopes a q) else PermissionDecision.denied

decide_grant-grant_of : (t a q : Bool) → decide_grant (grant_of t a q) ≡ decision_of t a q
unfolding frozen_set
decide_grant-grant_of t a q = ground arith

module _ (rows : List PermissionGrantRow) (code : String) {permissions : Grants}
    (built : build_permission_grant_map rows ≡ ok permissions)
    (known : has code permission_codes ≡ true) where
  resolve-decision_of :
      resolve_permission_decision permissions (text code)
      ≡ ok (
          decision_of
            (holds rows code tenant)
            (holds rows code ResourceScope.assigned)
            (holds rows code ResourceScope.quality_control))
  unfolding resolve_permission_decision
  resolve-decision_of =
      rw (parse_permission_code-known code known, get-build rows code built known)
        (ap ok (decide_grant-grant_of _ _ _))

  -- The grants decide a known requirement as its rows promise.
  pub authorize-promised :
      (scope : RequirementScope)
      → authorize_permission_requirement permissions (record { permission = code; scope = scope })
        ≡ ok (
            promised scope code
              (holds rows code tenant)
              (holds rows code ResourceScope.assigned)
              (holds rows code ResourceScope.quality_control))
  unfolding authorize_permission_requirement
  authorize-promised scope =
      rw (parse_permission_code-known code known, resolve-decision_of)
        (ap ok (by_scope scope _ _ _))
    where
      by_scope :
          (s : RequirementScope) (t a q : Bool)
          → decide_requirement code s (decision_of t a q) ≡ promised s code t a q
      by_scope s t a q = ground arith

  -- A requirement of the whole tenant passes exactly on a row that grants the tenant.
  pub require_tenant-holds :
      require_tenant_permission permissions code
      ≡ (if holds rows code tenant then ok tt else err (permission_denied code))
  unfolding require_tenant_permission
  require_tenant-holds = rw resolve-decision_of (by_grant _ _ _)
    where
      by_grant :
          (t a q : Bool)
          → require (is_tenant (decision_of t a q)) (permission_denied code)
            ≡ (if t then ok tt else err (permission_denied code))
      by_grant t a q = ground arith
