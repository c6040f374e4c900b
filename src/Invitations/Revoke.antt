-- ===== src/Invitations/Revoke.antt =====
-- The list of a workshop's invitations and the revocation of one: listInvitations and revokeInvitation
-- of src/invitations/service.ts. The row lock has no effect on the tables.
use Prim.Native.String.{compare}
use Prim.Native.Nat.{Ordering}
use taller_mecario_b.Base.{
  ℕ, zero, suc, String, Bool, true, false, ◌&&◌, ◌||◌, List, [], ◌∷◌, Option, none, some, find,
  keep, ltb, leb, ◌==◌, string_key, nat_key, if◌then◌else◌,
}
use taller_mecario_b.Base.Steps.{return, throw, query, attempt, ◌>>=◌, ◌>>◌, or_throw}
use taller_mecario_b.Authz.Roles.{RoleCode, role_text}
use taller_mecario_b.Invitations.Store.{
  pending, accepted, expired, revoked, invitation_status_key, Invitation, success, text, Db,
  Violation, mi_delivery_in_progress, invitation_not_found, invitation_expired,
  invitation_already_accepted, invitation_in_progress, InvitationError, api, internal, database,
}
use taller_mecario_b.Invitations.Statements.{update_invitations}
use taller_mecario_b.Invitations.Request.{
  Tx, InvitationDto, parse_role, to_dto, insert_audit, RequestContext, actor_audit,
  require_assignable, status_of,
}

-- `ORDER BY created_at DESC, id DESC`.
abbrev pub is_before : Invitation → Invitation → Bool
is_before a b =
    ltb b.created_at a.created_at
    || (a.created_at == b.created_at && elim (compare b.id a.id) [ Ordering.lt ↦ true | _ ↦ false ])

abbrev pub insert_ordered : Invitation → List Invitation → List Invitation
insert_ordered i [] = i ∷ []
insert_ordered i (j ∷ js) = if is_before j i then j ∷ insert_ordered i js else i ∷ j ∷ js

abbrev pub ordered : List Invitation → List Invitation
ordered [] = []
ordered (i ∷ is) = insert_ordered i (ordered is)

abbrev pub limited : ℕ → List Invitation → List Invitation
limited zero is = []
limited (suc n) [] = []
limited (suc n) (i ∷ is) = i ∷ limited n is

-- `rows.map(toDto)` on rows read at an instant.
abbrev pub to_dtos : ℕ → List Invitation → Tx (List InvitationDto)
to_dtos now [] = return []
to_dtos now (i ∷ is) = do
  first ← to_dto i (leb i.expires_at now)
  rest ← to_dtos now is
  return (first ∷ rest)

unfoldable pub list_invitations : RequestContext → ℕ → Tx (List InvitationDto)
list_invitations context read_at = do
  rows ← query (λ (db : Db).
      limited 200 (
        ordered
          (keep (λ (i : Invitation). i.tenant_id == context.tenant.tenant_id) db.invitations)))
  to_dtos read_at rows

abbrev pub is_invitation : String → String → Invitation → Bool
is_invitation tenant_id id i = i.id == id && i.tenant_id == tenant_id

abbrev pub is_pending_one : String → String → Invitation → Bool
is_pending_one tenant_id id i = is_invitation tenant_id id i && i.status == pending

abbrev pub set_revoked : String → ℕ → Invitation → Invitation
set_revoked membership_id now i = record i {
  status = revoked;
  revoked_at = some now;
  revoked_by_membership_id = some membership_id;
}

abbrev pub revoking : Violation → InvitationError
revoking mi_delivery_in_progress = api invitation_in_progress
revoking v = database v

abbrev pub first_row : List Invitation → Option Invitation
first_row [] = none
first_row (i ∷ is) = some i

-- The update of a pending invitation and its audit row.
unfoldable pub revoke_pending : RequestContext → Invitation → RoleCode → ℕ → Tx InvitationDto
revoke_pending context row role written_at = do
  rows ←
      attempt
        (update_invitations written_at (is_pending_one context.tenant.tenant_id row.id)
          (set_revoked context.tenant.membership_id written_at))
        revoking
  new ← or_throw (internal "INVITATION_REVOKE_RESULT_MISSING") (first_row rows)
  insert_audit (
      actor_audit context "membership.invitation_revoked" success (some row.id)
        "membership_invitation" (some (status_of "pending")) (some (status_of "revoked"))
        (some (("target_role", text (role_text role)) ∷ [])))
  to_dto new false

-- What each status of the row that was read leads to.
unfoldable pub revoke_row : RequestContext → Invitation → RoleCode → ℕ → ℕ → Tx InvitationDto
revoke_row context row role read_at written_at =
    if row.status == revoked
    then to_dto row (leb row.expires_at read_at)
    else if row.status == accepted
    then throw (api invitation_already_accepted)
    else if row.status == expired || leb row.expires_at read_at
    then throw (api invitation_expired)
    else revoke_pending context row role written_at

unfoldable pub revoke_invitation : RequestContext → String → ℕ → ℕ → Tx InvitationDto
revoke_invitation context id read_at written_at = do
  found ← query (λ (db : Db). find (is_invitation context.tenant.tenant_id id) db.invitations)
  row ← or_throw (api invitation_not_found) found
  role ← parse_role row.role_code
  require_assignable context "membership.invitation_revoked" (some row.id) role
  revoke_row context row role read_at written_at
