-- ===== src/Authz/Grants.antt =====
-- The combination of the scopes that the active roles grant: src/authz/permission-grants.ts, and
-- the canonical form of a grant (`freezeGrant` of src/authz/authorize.ts).
pub mod Laws
use taller_mecario_b.Base.{
  Bool, true, false, List, [], ◌∷◌, Option, none, some, any, ◌==◌, if◌then◌else◌,
}
use taller_mecario_b.Collections.{has, add, frozen_set}
use taller_mecario_b.Authz.Roles.{
  ResourceScope, RestrictedScope, tenant, resource_scopes, scope_key, restricted_key,
}

pub data PermissionGrant : Type 0 where
  tenant_wide : PermissionGrant
  restricted : List RestrictedScope → PermissionGrant

-- `isRestrictedScope`, with the scope at its narrower type.
abbrev pub restricted_scope : ResourceScope → Option RestrictedScope
restricted_scope tenant = none
restricted_scope ResourceScope.assigned = some RestrictedScope.assigned
restricted_scope ResourceScope.quality_control = some RestrictedScope.quality_control

abbrev add_scope : Option RestrictedScope → List RestrictedScope → List RestrictedScope
add_scope none seen = seen
add_scope (some scope) seen = add scope seen

-- The loop of `combinePermissionScopes`.
collect_restricted : List RestrictedScope → List ResourceScope → List RestrictedScope
collect_restricted seen [] = seen
collect_restricted seen (scope ∷ scopes) =
    collect_restricted (add_scope (restricted_scope scope) seen) scopes

unfoldable pub combine_permission_scopes : List ResourceScope → Option PermissionGrant
unfolding collect_restricted
combine_permission_scopes [] = none
combine_permission_scopes (scope ∷ scopes) =
    if any (λ s. s == tenant) (scope ∷ scopes)
    then some tenant_wide
    else some (restricted (collect_restricted [] (scope ∷ scopes)))

-- The filter of `freezeGrant` over RESOURCE_SCOPES.
canonical_scopes : List RestrictedScope → List ResourceScope → List RestrictedScope
canonical_scopes scopes [] = []
canonical_scopes scopes (s ∷ rest) = elim (restricted_scope s) [
  | none ↦ canonical_scopes scopes rest
  | some r ↦ if has r scopes then r ∷ canonical_scopes scopes rest else canonical_scopes scopes rest
]

unfoldable pub freeze_grant : PermissionGrant → PermissionGrant
unfolding canonical_scopes frozen_set
freeze_grant tenant_wide = tenant_wide
freeze_grant (restricted scopes) = restricted (frozen_set (canonical_scopes scopes resource_scopes))
