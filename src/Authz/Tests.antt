-- ===== src/Authz/Tests.antt =====
-- Concrete runs of the authorization theorems.
use taller_mecario_b.Base.{
  String, true, List, [], ◌∷◌, none, some, ok, err, is_ok, arith, string_key, ◌≡◌, ◌≢◌, ◌⊎◌, refl,
  any, all,
}
use mathlib.Core.Option
use taller_mecario_b.Collections.{has, get, set}
use taller_mecario_b.Authz.Roles.{
  ResourceScope, RestrictedScope, tenant, owner, admin, technician, service_advisor,
}
use taller_mecario_b.Authz.Assignment.{role_assignment_permission}
use taller_mecario_b.Authz.Matrix.{
  permission_codes, granted_cell, matrix_cell, list_role_permission_rows,
}
use taller_mecario_b.Authz.Matrix.Laws.{grants_ordered, assignment_authority}
use taller_mecario_b.Authz.Matrix.Listing.{listed-granted, is_row, grants_scope}
use taller_mecario_b.Authz.Grants.{restricted, tenant_wide, combine_permission_scopes, freeze_grant}
use taller_mecario_b.Authz.Grants.Laws.{freeze-combine}
use taller_mecario_b.Authz.Authorize.{
  PermissionGrantRow, resource, build_permission_grant_map, require_tenant_permission,
  permission_denied, one_resource, resource_check_required, authorize_permission_requirement,
  Grants,
}
use taller_mecario_b.Authz.Authorize.Effective.{build-rows_irrelevant, build-is_ok_iff, holds}
use taller_mecario_b.Authz.Authorize.Grouping.{is_known}
use taller_mecario_b.Authz.Authorize.Decisions.{authorize-promised, require_tenant-holds}
use taller_mecario_b.Authz.Tripwire.{
  required_pending, Store, Handle, create_resource_authorization_state,
  assert_resource_authorization_complete,
}
use taller_mecario_b.Authz.Tripwire.Laws.{complete-marks, marks}

abbrev row : String → String → PermissionGrantRow
row code scope = record { permission_code = code; resource_scope = scope }

-- An advisor who is a technician too: media for the tenant and where assigned, orders where
-- assigned, and quality control.
abbrev sample_rows : List PermissionGrantRow
sample_rows =
    row "media.read" "assigned"
    ∷ row "media.read" "tenant"
    ∷ row "orders.read" "assigned"
    ∷ row "orders.read" "quality_control"
    ∷ row "orders.read" "assigned"
    ∷ []

abbrev same_rows : List PermissionGrantRow
same_rows =
    row "orders.read" "quality_control"
    ∷ row "media.read" "tenant"
    ∷ row "orders.read" "assigned"
    ∷ row "media.read" "assigned"
    ∷ []

abbrev sample_grants : Grants
sample_grants =
    ("media.read", tenant_wide)
    ∷ ("orders.read", restricted (RestrictedScope.assigned ∷ RestrictedScope.quality_control ∷ []))
    ∷ []

sample_built : build_permission_grant_map sample_rows ≡ ok sample_grants
unfolding build_permission_grant_map get set permission_codes combine_permission_scopes freeze_grant
sample_built = refl

orders_known : has "orders.read" permission_codes ≡ true
unfolding permission_codes
orders_known = refl

authorize-promised_example :
    authorize_permission_requirement sample_grants
      (record { permission = "orders.read"; scope = one_resource })
    ≡ ok (
        resource_check_required "orders.read"
          (RestrictedScope.assigned ∷ RestrictedScope.quality_control ∷ []))
authorize-promised_example =
    authorize-promised sample_rows "orders.read" sample_built orders_known one_resource

require_tenant-holds_example :
    require_tenant_permission sample_grants "orders.read" ≡ err (permission_denied "orders.read")
require_tenant-holds_example =
    require_tenant-holds sample_rows "orders.read" sample_built orders_known

sample_known : all is_known sample_rows ≡ true
unfolding permission_codes
sample_known = refl

same_known : all is_known same_rows ≡ true
unfolding permission_codes
same_known = refl

same_holds :
    (code : String) (scope : ResourceScope)
    → holds sample_rows code scope ≡ holds same_rows code scope
same_holds code tenant = ground arith
same_holds code ResourceScope.assigned = ground arith
same_holds code ResourceScope.quality_control = ground arith

build-rows_irrelevant_example :
    build_permission_grant_map sample_rows ≡ build_permission_grant_map same_rows
build-rows_irrelevant_example =
    build-rows_irrelevant sample_rows same_rows sample_known same_known same_holds

build-is_ok_iff_example :
    is_ok (build_permission_grant_map (row "orders.read" "everything" ∷ sample_rows))
    ≡ all is_known (row "orders.read" "everything" ∷ sample_rows)
build-is_ok_iff_example = build-is_ok_iff (row "orders.read" "everything" ∷ sample_rows)

freeze-combine_example :
    Option.map freeze_grant (
      combine_permission_scopes (
        ResourceScope.quality_control ∷ ResourceScope.assigned ∷ ResourceScope.quality_control
        ∷ []))
    ≡ some (restricted (RestrictedScope.assigned ∷ RestrictedScope.quality_control ∷ []))
freeze-combine_example =
    freeze-combine
      (ResourceScope.quality_control ∷ ResourceScope.assigned ∷ ResourceScope.quality_control ∷ [])

listed-granted_example :
    any (is_row "media.read" technician ResourceScope.assigned) list_role_permission_rows
    ≡ grants_scope (matrix_cell "media.read" technician) ResourceScope.assigned
listed-granted_example = listed-granted "media.read" technician ResourceScope.assigned

audit_granted : granted_cell "receptions.close" service_advisor ≡ some tenant
unfolding granted_cell Option.bind set
audit_granted = refl

grants_ordered_example :
    (granted_cell "receptions.close" owner ≡ some tenant)
    × ((service_advisor ≢ service_advisor) ⊎ (granted_cell "receptions.close" admin ≡ some tenant))
    × ((tenant ≡ tenant) ⊎ (service_advisor ≡ technician))
grants_ordered_example = grants_ordered "receptions.close" service_advisor tenant audit_granted

assignment_authority_example : granted_cell (role_assignment_permission owner) admin ≡ none
assignment_authority_example = assignment_authority admin owner

abbrev empty_store : Store
empty_store = record { statuses = []; made = 0 }

abbrev media_handle : Handle
media_handle = record {
  id = 0;
  permission = "media.read";
  granted_scopes = RestrictedScope.assigned ∷ [];
}

abbrev pending_store : Store
pending_store = record { statuses = (0, required_pending) ∷ []; made = 1 }

media_created :
    create_resource_authorization_state empty_store "media.read"
      (resource (RestrictedScope.assigned ∷ []))
    ≡ ok (pending_store, media_handle)
unfolding create_resource_authorization_state
media_created = refl

complete-marks_example :
    assert_resource_authorization_complete
      (marks pending_store (
        (media_handle, RestrictedScope.quality_control)
        ∷ (media_handle, RestrictedScope.assigned)
        ∷ []))
      media_handle
    ≡ ok tt
complete-marks_example =
    complete-marks empty_store "media.read" (resource (RestrictedScope.assigned ∷ []))
      ((media_handle, RestrictedScope.quality_control)
        ∷ (media_handle, RestrictedScope.assigned)
        ∷ [])
      media_created ((λ e. refl), ((λ e. refl), tt))
