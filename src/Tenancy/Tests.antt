-- ===== src/Tenancy/Tests.antt =====
-- A user of two workshops, and the requests of that user.
use taller_mecario_b.Base.{
  String, true, false, List, [], ◌∷◌, some, ok, err, find, ◌==◌, string_key, ◌≡◌, refl, ◌⊎◌, ◌↔◌,
}
use taller_mecario_b.Collections.{get, set}
use taller_mecario_b.Authz.Roles.{owner}
use taller_mecario_b.Authz.Matrix.{permission_codes}
use taller_mecario_b.Authz.Grants.{tenant_wide, combine_permission_scopes, freeze_grant}
use taller_mecario_b.Authz.Authorize.{text, build_permission_grant_map, parse_role_code}
use taller_mecario_b.Tenancy.Uuid.{UuidSchema, parse_canonical_uuid, parse_canonical_uuid-twice}
use taller_mecario_b.Tenancy.Selection.{
  no_selection, explicit, single, tenant_access_denied, ActiveMembershipCandidate, RawCandidate,
  parse_tenant_selection, normalize_candidates, select_tenant_candidate,
}
use taller_mecario_b.Tenancy.Selection.Laws.{
  is_distinct, of_tenant, select_tenant_candidate-chosen, select_tenant_candidate-denied_iff,
}
use taller_mecario_b.Tenancy.Context.{
  TenantContext, TenantContextInput, is_request_id, parse_roles, require_uuid,
  create_tenant_context,
}

abbrev schema : UuidSchema
schema = record { accepts = λ value. true }

abbrev upper_id : String
upper_id = "0190A000-0000-7000-8000-00000000000A"

abbrev workshop : String
workshop = "0190a000-0000-7000-8000-00000000000a"

abbrev other_workshop : String
other_workshop = "0190a000-0000-7000-8000-00000000000b"

abbrev third_workshop : String
third_workshop = "0190a000-0000-7000-8000-00000000000c"

abbrev member : String
member = "0190a000-0000-7000-8000-0000000000aa"

abbrev raw : String → RawCandidate
raw tenant_id = record { tenant_id = text tenant_id; membership_id = text member }

abbrev of : String → ActiveMembershipCandidate
of tenant_id = record { tenant_id = tenant_id; membership_id = member }

abbrev raws : List RawCandidate
raws = raw upper_id ∷ raw other_workshop ∷ []

canonical_run : parse_canonical_uuid schema (text upper_id) ≡ some workshop
unfolding parse_canonical_uuid
canonical_run = refl

parse_canonical_uuid-twice_example : parse_canonical_uuid schema (text workshop) ≡ some workshop
parse_canonical_uuid-twice_example =
    parse_canonical_uuid-twice schema (λ value h. refl) upper_id workshop canonical_run

header_run : parse_tenant_selection schema (single (text upper_id)) ≡ ok (explicit workshop)
unfolding parse_tenant_selection parse_canonical_uuid
header_run = refl

selection_run : select_tenant_candidate schema raws (explicit workshop) ≡ ok (of workshop)
unfolding select_tenant_candidate parse_canonical_uuid
selection_run = refl

select_tenant_candidate-chosen_example :
    (cs : List ActiveMembershipCandidate) × (normalize_candidates schema raws ≡ ok cs)
    × (is_distinct cs ≡ true)
    × (((explicit workshop ≡ no_selection) × (cs ≡ of workshop ∷ []))
        ⊎ ((tenant_id : String) × (explicit workshop ≡ explicit tenant_id)
            × (parse_canonical_uuid schema (text tenant_id) ≡ some workshop)
            × (find (λ (d : ActiveMembershipCandidate). d.tenant_id == workshop) cs
                ≡ some (of workshop))))
select_tenant_candidate-chosen_example =
    select_tenant_candidate-chosen schema raws (explicit workshop) (of workshop) selection_run

candidates_run : normalize_candidates schema raws ≡ ok (of workshop ∷ of other_workshop ∷ [])
unfolding normalize_candidates parse_canonical_uuid
candidates_run = refl

third_run : parse_canonical_uuid schema (text third_workshop) ≡ some third_workshop
unfolding parse_canonical_uuid
third_run = refl

select_tenant_candidate-denied_iff_example :
    (select_tenant_candidate schema raws (explicit third_workshop) ≡ err tenant_access_denied)
    ↔ (of_tenant third_workshop (of workshop ∷ of other_workshop ∷ []) ≡ false)
select_tenant_candidate-denied_iff_example =
    select_tenant_candidate-denied_iff schema raws third_workshop third_workshop
      (of workshop ∷ of other_workshop ∷ []) candidates_run third_run

abbrev input : TenantContextInput
input = record {
  tenant_id = text upper_id;
  user_id = text member;
  membership_id = text member;
  role_codes = text "owner" ∷ [];
  permission_rows = record { permission_code = "media.read"; resource_scope = "tenant" } ∷ [];
  request_id = "r-1";
}

abbrev context : TenantContext
context = record {
  tenant_id = workshop;
  user_id = member;
  membership_id = member;
  roles = owner ∷ [];
  permissions = ("media.read", tenant_wide) ∷ [];
  request_id = "r-1";
}

context_run : create_tenant_context schema input ≡ ok context
unfolding create_tenant_context require_uuid parse_canonical_uuid is_request_id parse_roles
    parse_role_code build_permission_grant_map get set permission_codes combine_permission_scopes
    freeze_grant
context_run = refl
