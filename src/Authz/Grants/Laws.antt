-- ===== src/Authz/Grants/Laws.antt =====
-- The effective grant of a list of scopes depends on which scopes it holds, and on nothing else.
use mathlib.Core.Option
use taller_mecario_b.Base.{
  Bool, true, false, ◌||◌, List, [], ◌∷◌, Option, none, some, ◌≡◌, refl, ◌∙◌, arith, ◌==◌,
}
use taller_mecario_b.Collections.{has}
use taller_mecario_b.Collections.Laws.{has-add}
use taller_mecario_b.Authz.Roles.{ResourceScope, RestrictedScope, tenant, restricted_key, scope_key}
use taller_mecario_b.Authz.Grants.{
  PermissionGrant, tenant_wide, restricted, collect_restricted, combine_permission_scopes,
  freeze_grant, restricted_scope, add_scope,
}

-- The restricted scopes in the order of RESOURCE_SCOPES.
abbrev pub held_scopes : Bool → Bool → List RestrictedScope
held_scopes true true = RestrictedScope.assigned ∷ RestrictedScope.quality_control ∷ []
held_scopes true false = RestrictedScope.assigned ∷ []
held_scopes false true = RestrictedScope.quality_control ∷ []
held_scopes false false = []

-- The grant by what is held: of the tenant, assigned, of quality control.
abbrev pub grant_of : Bool → Bool → Bool → Option PermissionGrant
grant_of true a q = some tenant_wide
grant_of false false false = none
grant_of false a q = some (restricted (held_scopes a q))

abbrev widen : RestrictedScope → ResourceScope
widen RestrictedScope.assigned = ResourceScope.assigned
widen RestrictedScope.quality_control = ResourceScope.quality_control

has-add_scope :
    (r : RestrictedScope) (s : ResourceScope) (seen : List RestrictedScope)
    → has r (add_scope (restricted_scope s) seen) ≡ has r seen || (s == widen r)
has-add_scope r tenant seen = ground arith
has-add_scope r ResourceScope.assigned seen =
    ground (arith, has-add r RestrictedScope.assigned seen)
has-add_scope r ResourceScope.quality_control seen =
    ground (arith, has-add r RestrictedScope.quality_control seen)

has-collect_restricted :
    (r : RestrictedScope) (seen : List RestrictedScope) (scopes : List ResourceScope)
    → has r (collect_restricted seen scopes) ≡ has r seen || has (widen r) scopes
unfolding collect_restricted
has-collect_restricted r seen [] = ground arith
has-collect_restricted r seen (s ∷ scopes) =
    has-collect_restricted r (add_scope (restricted_scope s) seen) scopes
    ∙ rw (has-add_scope r s seen) (ground arith)

freeze_grant-restricted :
    (scopes : List RestrictedScope)
    → freeze_grant (restricted scopes)
      ≡ restricted (
          held_scopes
            (has RestrictedScope.assigned scopes)
            (has RestrictedScope.quality_control scopes))
unfolding freeze_grant
freeze_grant-restricted scopes = ground arith

freeze_grant-tenant_wide : freeze_grant tenant_wide ≡ tenant_wide
unfolding freeze_grant
freeze_grant-tenant_wide = refl

some_held :
    (s : ResourceScope) (scopes : List ResourceScope)
    → has tenant (s ∷ scopes) ≡ false
    → some (
        restricted (
          held_scopes
            (has ResourceScope.assigned (s ∷ scopes))
            (has ResourceScope.quality_control (s ∷ scopes))))
      ≡ grant_of false
          (has ResourceScope.assigned (s ∷ scopes))
          (has ResourceScope.quality_control (s ∷ scopes))
some_held s scopes h = ground arith

-- For every list of scopes, with repetitions and in any order.
pub freeze-combine :
    (scopes : List ResourceScope)
    → Option.map freeze_grant (combine_permission_scopes scopes)
      ≡ grant_of
          (has tenant scopes)
          (has ResourceScope.assigned scopes)
          (has ResourceScope.quality_control scopes)
unfolding combine_permission_scopes
freeze-combine [] = refl
freeze-combine (s ∷ scopes) = ground (
  arith,
  freeze_grant-tenant_wide,
  freeze_grant-restricted (collect_restricted [] (s ∷ scopes)),
  has-collect_restricted RestrictedScope.assigned [] (s ∷ scopes),
  has-collect_restricted RestrictedScope.quality_control [] (s ∷ scopes),
  some_held s scopes,
)
