-- ===== src/Tenancy/Selection.antt =====
-- Which active membership a request uses: src/tenancy/tenant-selection.ts.
pub mod Laws
use taller_mecario_b.Base.{
  String, Bool, true, false, List, [], ◌∷◌, ◌++◌, Option, none, some, Result, ok, err, ◌>>=◌, ◌>>◌,
  require, not, any, find, ◌==◌, string_key, if◌then◌else◌,
}
use taller_mecario_b.Collections.{has, add}
use taller_mecario_b.Authz.Authorize.{Dynamic, text, other}
use taller_mecario_b.Tenancy.Uuid.{UuidSchema, parse_canonical_uuid}

pub data TenantResolutionError : Type 0 where
  tenant_selection_invalid active_membership_required tenant_selection_required :
      TenantResolutionError
  tenant_access_denied tenant_candidate_invalid : TenantResolutionError

pub data TenantSelection : Type 0 where
  no_selection : TenantSelection
  explicit : String → TenantSelection

-- The value of the header: absent, null, a text, an array of values, or anything else.
pub data HeaderValue : Type 0 where
  absent null : HeaderValue
  single : Dynamic → HeaderValue
  array : List Dynamic → HeaderValue

pub record ActiveMembershipCandidate : Type 0 where
  pub tenant_id : String
  pub membership_id : String

-- A candidate as the database layer gives it.
pub record RawCandidate : Type 0 where
  pub tenant_id : Dynamic
  pub membership_id : Dynamic

abbrev explicit_selection : Option String → Result TenantResolutionError TenantSelection
explicit_selection none = err tenant_selection_invalid
explicit_selection (some tenant_id) = ok (explicit tenant_id)

abbrev both_ids :
    Option String → Option String → Result TenantResolutionError ActiveMembershipCandidate
both_ids (some tenant_id) (some membership_id) =
    ok (record { tenant_id = tenant_id; membership_id = membership_id })
both_ids _ _ = err tenant_candidate_invalid

abbrev pub requested : Option String → Result TenantResolutionError (Option String)
requested none = err tenant_selection_invalid
requested (some tenant_id) = ok (some tenant_id)

module _ (schema : UuidSchema) where
  unfoldable pub parse_tenant_selection : HeaderValue → Result TenantResolutionError TenantSelection
  parse_tenant_selection absent = ok no_selection
  parse_tenant_selection null = ok no_selection
  parse_tenant_selection (single raw) = explicit_selection (parse_canonical_uuid schema raw)
  parse_tenant_selection (array (raw ∷ [])) = explicit_selection (parse_canonical_uuid schema raw)
  parse_tenant_selection (array _) = err tenant_selection_invalid

  abbrev pub canonical_candidate :
      RawCandidate → Result TenantResolutionError ActiveMembershipCandidate
  canonical_candidate raw =
      both_ids (parse_canonical_uuid schema raw.tenant_id)
        (parse_canonical_uuid schema raw.membership_id)

  -- The loop of `normalizeCandidates`, with the tenants that were seen.
  unfoldable pub normalize_from :
      List String
      → List RawCandidate
      → Result TenantResolutionError (List ActiveMembershipCandidate)
  normalize_from seen [] = ok []
  normalize_from seen (raw ∷ raws) = do
    candidate ← canonical_candidate raw
    require (not (has candidate.tenant_id seen)) tenant_candidate_invalid
    rest ← normalize_from (candidate.tenant_id ∷ seen) raws
    ok (candidate ∷ rest)

  unfoldable pub normalize_candidates :
      List RawCandidate → Result TenantResolutionError (List ActiveMembershipCandidate)
  unfolding normalize_from
  normalize_candidates raws = normalize_from [] raws

  unfoldable pub explicit_tenant_id : TenantSelection → Result TenantResolutionError (Option String)
  explicit_tenant_id no_selection = ok none
  explicit_tenant_id (explicit tenant_id) = requested (parse_canonical_uuid schema (text tenant_id))

abbrev pub or_denied :
    Option ActiveMembershipCandidate → Result TenantResolutionError ActiveMembershipCandidate
or_denied none = err tenant_access_denied
or_denied (some match) = ok match

abbrev pub only :
    List ActiveMembershipCandidate → Result TenantResolutionError ActiveMembershipCandidate
only [] = err active_membership_required
only (candidate ∷ []) = ok candidate
only (candidate ∷ _ ∷ _) = err tenant_selection_required

abbrev pub choose :
    List ActiveMembershipCandidate
    → Option String
    → Result TenantResolutionError ActiveMembershipCandidate
choose candidates none = only candidates
choose candidates (some tenant_id) =
    or_denied (find (λ (c : ActiveMembershipCandidate). c.tenant_id == tenant_id) candidates)

unfoldable pub select_tenant_candidate :
    UuidSchema
    → List RawCandidate
    → TenantSelection
    → Result TenantResolutionError ActiveMembershipCandidate
unfolding normalize_candidates explicit_tenant_id
select_tenant_candidate schema memberships selection = do
  candidates ← normalize_candidates schema memberships
  requested_tenant_id ← explicit_tenant_id schema selection
  choose candidates requested_tenant_id
