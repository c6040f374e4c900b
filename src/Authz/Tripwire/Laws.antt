-- ===== src/Authz/Tripwire/Laws.antt =====
-- What a request sees of the tripwire over any history of marks on any handles.
use taller_mecario_b.Base.{
  String, Bool, true, false, ◌&&◌, ◌||◌, List, [], ◌∷◌, Option, none, some, ok, err, ◌≡◌, refl, ◌∙◌,
  ap, ap₂, ◌⊎◌, arith, any, nat_key, ◌==◌, if◌then◌else◌, nat_eqb_iff, Bool-cases, inl, inr,
}
use taller_mecario_b.Collections.{has, get, frozen_set}
use taller_mecario_b.Collections.Laws.{get-set, has-frozen_set}
use taller_mecario_b.Authz.Roles.{RestrictedScope, restricted_key}
use taller_mecario_b.Authz.Authorize.{PermissionDecision, resource}
use taller_mecario_b.Authz.Tripwire.{
  Status, not_required, required_pending, satisfied, check_missing, Handle, Store,
  create_resource_authorization_state, current_status, mark_resource_authorization_satisfied,
  assert_resource_authorization_complete,
}

-- A mark of a request that goes on when it is refused.
pub mark : Store → Handle × RestrictedScope → Store
mark store (state, via) = elim (mark_resource_authorization_satisfied store state via) [
  | ok (store', status) ↦ store'
  | err e ↦ store
]

pub marks : Store → List (Handle × RestrictedScope) → Store
marks store [] = store
marks store (m ∷ ms) = marks (mark store m) ms

-- The mark is of this handle, through a scope that it was granted.
abbrev pub fits : Handle → Handle × RestrictedScope → Bool
fits state (other, via) = other.id == state.id && has via other.granted_scopes

abbrev after_mark : Bool → Option Status → Option Status
after_mark b none = none
after_mark b (some not_required) = some not_required
after_mark b (some satisfied) = some satisfied
after_mark true (some required_pending) = some satisfied
after_mark false (some required_pending) = some required_pending

get-mark :
    (state : Handle) (store : Store) (m : Handle × RestrictedScope)
    → get state.id (mark store m).statuses ≡ after_mark (fits state m) (get state.id store.statuses)
unfolding mark mark_resource_authorization_satisfied current_status
get-mark state store (other, via) =
    ground
      (arith, nat_eqb_iff other.id state.id, get-set other.id state.id satisfied store.statuses)

get-marks :
    (state : Handle) (store : Store) (ms : List (Handle × RestrictedScope))
    → get state.id (marks store ms).statuses
      ≡ after_mark (any (fits state) ms) (get state.id store.statuses)
unfolding marks
get-marks state store [] = ground arith
get-marks state store (m ∷ ms) =
    get-marks state (mark store m) ms ∙ rw (get-mark state store m) (ground arith)

-- The marks of the handle's number are marks of the handle itself.
abbrev pub IsGenuine : Handle → List (Handle × RestrictedScope) → Type 0
IsGenuine state [] = Unit
IsGenuine state ((other, via) ∷ ms) = (other.id ≡ state.id → other ≡ state) × IsGenuine state ms

-- A mark of the handle through one of the given scopes.
abbrev pub marks_with : Handle → List RestrictedScope → Handle × RestrictedScope → Bool
marks_with state scopes (other, via) = other.id == state.id && has via scopes

any-fits :
    (state : Handle) (scopes : List RestrictedScope) (ms : List (Handle × RestrictedScope))
    → IsGenuine state ms
    → state.granted_scopes ≡ frozen_set scopes
    → any (fits state) ms ≡ any (marks_with state scopes) ms
any-fits state scopes [] genuine same = refl
any-fits state scopes ((other, via) ∷ ms) genuine same =
    ap₂ ◌||◌ (here (Bool-cases (other.id == state.id))) (any-fits state scopes ms genuine.1 same)
  where
    here :
        (((other.id == state.id) ≡ true) ⊎ ((other.id == state.id) ≡ false))
        → fits state (other, via) ≡ marks_with state scopes (other, via)
    here (inl is_it) =
        let it : other ≡ state = genuine.0 ((nat_eqb_iff _ _).0 is_it) in
        rw is_it (
          ap (λ (h : Handle). has via h.granted_scopes) it
          ∙ ap (has via) same
          ∙ has-frozen_set via scopes)
    here (inr another) = rw another

abbrev pub scopes_of : PermissionDecision → List RestrictedScope
scopes_of (resource scopes) = scopes
scopes_of _ = []

abbrev pub is_tenant : PermissionDecision → Bool
is_tenant PermissionDecision.tenant = true
is_tenant _ = false

abbrev first_status : PermissionDecision → Status
first_status (resource scopes) = required_pending
first_status _ = not_required

create-fields :
    (store : Store) (permission : String) (decision : PermissionDecision) {store' : Store}
    {state : Handle}
    → create_resource_authorization_state store permission decision ≡ ok (store', state)
    → (get state.id store'.statuses ≡ some (first_status decision))
      × (state.permission ≡ permission)
      × (state.granted_scopes ≡ frozen_set (scopes_of decision))
      × (first_status decision ≡ not_required → is_tenant decision ≡ true)
unfolding create_resource_authorization_state
create-fields store permission PermissionDecision.tenant h =
    ground (arith, get-set store.made store.made not_required store.statuses)
create-fields store permission (resource (s ∷ scopes)) h =
    ground (arith, get-set store.made store.made required_pending store.statuses)
create-fields store permission _ h = cc

after_first :
    (state : Handle) (store : Store) (decision : PermissionDecision) (marked : Bool)
    → get state.id store.statuses ≡ after_mark marked (some (first_status decision))
    → (first_status decision ≡ not_required → is_tenant decision ≡ true)
    → (is_tenant decision ≡ true → first_status decision ≡ not_required)
    → assert_resource_authorization_complete store state
      ≡ (if is_tenant decision || marked then ok tt else err (check_missing state.permission))
unfolding assert_resource_authorization_complete current_status
after_first state store decision marked at h k = ground (arith, at, h, k)

not_required_of_tenant :
    (decision : PermissionDecision)
    → is_tenant decision ≡ true
    → first_status decision ≡ not_required
not_required_of_tenant (resource scopes) h = cc
not_required_of_tenant _ h = refl

-- A request ends without the missing-check error exactly when its grant is of the tenant, or its
-- handle was marked through one of the scopes of its grant; marks of other handles, marks through
-- other scopes and repeated marks change nothing of this.
pub complete-marks :
    (store : Store) (permission : String) (decision : PermissionDecision) {store' : Store}
    {state : Handle} (ms : List (Handle × RestrictedScope))
    → create_resource_authorization_state store permission decision ≡ ok (store', state)
    → IsGenuine state ms
    → assert_resource_authorization_complete (marks store' ms) state ≡ (
        if is_tenant decision || any (marks_with state (scopes_of decision)) ms
        then ok tt
        else err (check_missing permission))
complete-marks store permission decision {store'} {state} ms made genuine =
    let (first, of_permission, of_scopes, only_tenant) =
      create-fields store permission decision made in
    rw (← any-fits state (scopes_of decision) ms genuine of_scopes, ← of_permission)
      (after_first state (marks store' ms) decision (any (fits state) ms)
        (get-marks state store' ms ∙ ap (after_mark (any (fits state) ms)) first) only_tenant
        (not_required_of_tenant decision))
