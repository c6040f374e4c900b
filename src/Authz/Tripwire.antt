-- ===== src/Authz/Tripwire.antt =====
-- The resource-authorization tripwire of src/authz/resource-authorization.ts. The module's private
-- map from handles to statuses is a store; a handle is the number of the handles made before it.
pub mod Laws
use taller_mecario_b.Base.{
  ℕ, suc, ◌+◌, String, Bool, true, false, List, [], ◌∷◌, Option, none, some, Result, ok, err, ◌>>=◌,
  nat_key, if◌then◌else◌, length,
}
use taller_mecario_b.Collections.{has, get, set, frozen_set}
use taller_mecario_b.Authz.Roles.{RestrictedScope, restricted_key}
use taller_mecario_b.Authz.Authorize.{PermissionDecision, resource}

pub data Status : Type 0 where
  not_required required_pending satisfied : Status

pub data TripwireError : Type 0 where
  permission_denied : String → TripwireError
  check_missing : String → TripwireError
  state_invalid : TripwireError

-- `ResourceAuthorizationState`, with the identity of the object.
pub record Handle : Type 0 where
  pub id : ℕ
  pub permission : String
  pub granted_scopes : List RestrictedScope

-- The `WeakMap`, and how many handles were made.
pub record Store : Type 0 where
  pub statuses : List (ℕ × Status)
  pub made : ℕ

register : Store → String → List RestrictedScope → Status → Store × Handle
unfolding set
register store permission scopes status = (
  record { statuses = set store.made status store.statuses; made = suc store.made },
  record { id = store.made; permission = permission; granted_scopes = frozen_set scopes },
)

unfoldable pub create_resource_authorization_state :
    Store → String → PermissionDecision → Result TripwireError (Store × Handle)
unfolding register frozen_set
create_resource_authorization_state store permission PermissionDecision.tenant =
    ok (register store permission [] not_required)
create_resource_authorization_state store permission (resource []) =
    err (permission_denied permission)
create_resource_authorization_state store permission (resource (s ∷ scopes)) =
    ok (register store permission (s ∷ scopes) required_pending)
create_resource_authorization_state store permission PermissionDecision.denied =
    err (permission_denied permission)

abbrev or_invalid : Option Status → Result TripwireError Status
or_invalid none = err state_invalid
or_invalid (some status) = ok status

unfoldable pub current_status : Store → Handle → Result TripwireError Status
unfolding get
current_status store state = or_invalid (get state.id store.statuses)

abbrev mark_at : Store → Handle → RestrictedScope → Status → Result TripwireError (Store × Status)
mark_at store state via not_required = ok (store, not_required)
mark_at store state via satisfied = ok (store, satisfied)
mark_at store state via required_pending =
    if has via state.granted_scopes
    then ok (record store { statuses = set state.id satisfied store.statuses }, satisfied)
    else err state_invalid

unfoldable pub mark_resource_authorization_satisfied :
    Store → Handle → RestrictedScope → Result TripwireError (Store × Status)
unfolding current_status set
mark_resource_authorization_satisfied store state via = do
  status ← current_status store state
  mark_at store state via status

abbrev complete_at : Handle → Status → Result TripwireError (Unit {0})
complete_at state required_pending = err (check_missing state.permission)
complete_at state _ = ok tt

unfoldable pub assert_resource_authorization_complete :
    Store → Handle → Result TripwireError (Unit {0})
unfolding current_status
assert_resource_authorization_complete store state = do
  status ← current_status store state
  complete_at state status
