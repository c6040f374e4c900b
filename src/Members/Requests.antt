-- ===== src/Members/Requests.antt =====
-- A command of src/memberships as one request: the transaction commits on success and on a durable
-- refusal, and is rolled back on every other error (finalizeTenantTransaction of
-- src/api/tenant-request.ts, the routes of src/memberships/roles-routes.ts and
-- src/memberships/lifecycle-routes.ts). Requests on one tenant serialize on its owner-set lock, and
-- no statement reaches another tenant's rows, so a history is a list of requests.
pub mod Settled
pub mod History
pub mod Audit
use taller_mecario_b.Base.{String, List, [], ◌∷◌, Result, ok, err, if◌then◌else◌}
use taller_mecario_b.Base.{keep, ◌==◌, string_key}
use taller_mecario_b.Authz.Roles.{RoleCode, role_text, role_codes}
use taller_mecario_b.Members.Store.{Db, MembershipCommand, MemberError}
use taller_mecario_b.Members.Roles.{
  RequestContext, is_durable, assign_member_role, remove_member_role,
}
use taller_mecario_b.Members.Lifecycle.{change_membership_status}

-- The tables after the transaction ended: `before` is what a ROLLBACK restores.
abbrev pub finalize : {A : Type 0} → Db → Result MemberError A × Db → Db
finalize before (ok reply, after) = after
finalize before (err e, after) = if is_durable e then after else before

pub data Request : Type 0 where
  assign remove : RequestContext → String → String → Request
  change : RequestContext → MembershipCommand → String → Request

unfoldable pub handle : Request → Db → Db
handle (assign context id role) db = finalize db (assign_member_role context id role db)
handle (remove context id role) db = finalize db (remove_member_role context id role db)
handle (change context command id) db = finalize db (change_membership_status context command id db)

unfoldable pub handle_all : List Request → Db → Db
handle_all [] db = db
handle_all (r ∷ rs) db = handle_all rs (handle r db)

-- Who makes a request, and on which membership.
abbrev pub context_of : Request → RequestContext
context_of (assign context id role) = context
context_of (remove context id role) = context
context_of (change context command id) = context

abbrev pub target_of : Request → String
target_of (assign context id role) = id
target_of (remove context id role) = id
target_of (change context command id) = id

-- The roles that a request names.
abbrev pub named_roles : Request → List RoleCode
named_roles (assign context id role) = keep (λ code. role_text code == role) role_codes
named_roles (remove context id role) = keep (λ code. role_text code == role) role_codes
named_roles (change context command id) = []
