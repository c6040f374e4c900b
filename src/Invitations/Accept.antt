-- ===== src/Invitations/Accept.antt =====
-- Acceptance of an invitation in a transaction of its own: acceptInvitation of
-- src/invitations/service.ts, with app.bootstrap_provision_user of
-- drizzle/0007_s1_03_clerk_identity_lifecycle.sql.
pub mod Outcomes
pub mod Provisioning
pub mod Admission
pub mod Enrolment
pub mod Body
pub mod Laws
use taller_mecario_b.Base.{
  ℕ, String, Bool, true, false, ◌&&◌, ◌||◌, not, List, [], ◌∷◌, ◌++◌, Option, none, some, Result,
  ok, err, any, find, leb, ltb, length, code_points, ◌==◌, string_key, nat_key, nat_eqb,
  if◌then◌else◌,
}
use taller_mecario_b.Base.Steps.{
  Step, return, throw, check, query, modify, attempt, ◌>>=◌, ◌>>◌, or_throw,
}
use taller_mecario_b.Authz.Roles.{RoleCode, role_text}
use taller_mecario_b.Members.Store.{Membership, MembershipStatus, MemberRole, RequestMeta}
use taller_mecario_b.Invitations.Store.{
  InvitationStatus, pending, accepted, expired, revoked, invitation_status_key, Invitation, User,
  UserStatus, active, disabled, IdentityState, Workshop, user, system, success, denied, text, texts,
  JsonObject, AuditRow, Db, Violation, mi_accept_after_deadline, memberships_pkey,
  memberships_tenant_user_key, membership_roles_pk, lock_not_available, mi_delivery_in_progress,
  mr_membership_not_active, InvitationErrorCode, invitation_invalid, invitation_expired,
  invitation_revoked, invitation_already_accepted, invitation_email_mismatch,
  membership_already_exists, invitation_in_progress, InvitationError, api, user_disabled, internal,
  database,
}
use taller_mecario_b.Invitations.Token.{is_token_hash}
use taller_mecario_b.Invitations.Statements.{update_invitations}
use taller_mecario_b.Invitations.Users.{Identity, Profile, provision_user}
use taller_mecario_b.Invitations.Request.{
  parse_role, insert_audit, insert_audits, entity, expired_audit, set_expired, status_of,
}
use taller_mecario_b.Invitations.Joining.{
  AcceptInput, AcceptResult, lock_invitation, resolve_invitation, insert_membership,
  insert_membership_role, new_membership, new_role, is_locked, set_accepted, success_audit,
  acceptance_audits, mismatch_audit,
}

-- What the body throws: an error, after which the transaction is rolled back, or `CommitThenThrow`.
pub data Thrown : Type 0 where
  thrown : InvitationError → Thrown
  commit_then_throw : InvitationErrorCode → Thrown

abbrev pub Body : Type 0 → Type 0
Body A = Step Db Thrown A

abbrev pub raised : Violation → Thrown
raised v = thrown (database v)

abbrev pub refuse : {A : Type 0} → InvitationErrorCode → Body A
refuse code = throw (thrown (api code))

abbrev pub is_enabled : UserStatus → Bool
is_enabled active = true
is_enabled disabled = false

-- The local user, who has to be active.
unfoldable pub accepting_user : AcceptInput → Body String
accepting_user input = do
  provisioned ←
      attempt
        (provision_user input.identity input.profile input.proposed_user_id input.meta.request_id)
        raised
  check (is_enabled provisioned.status) (thrown user_disabled)
  or_throw (thrown (internal "BOOTSTRAP_USER_RESULT_MISSING")) provisioned.user_id

-- An invitation whose deadline has passed: the transition is written, to be committed.
unfoldable pub expire_invitation : AcceptInput → Invitation → Body (Unit {0})
expire_invitation input i = do
  rows ← attempt (update_invitations input.written_at (is_locked i) set_expired) raised
  insert_audit (expired_audit input.meta "invitation_accept" i)
  throw (commit_then_throw invitation_expired)

-- The checks of the locked row, before anything is written for it.
unfoldable pub admit : AcceptInput → Invitation → String → Body (Unit {0})
admit input i user_id =
    if not (i.email_normalized == input.profile.email)
    then (insert_audit (mismatch_audit input i user_id)
        >> throw (commit_then_throw invitation_email_mismatch))
    else if i.status == accepted
    then refuse invitation_already_accepted
    else if i.status == revoked
    then refuse invitation_revoked
    else if i.status == expired
    then refuse invitation_expired
    else if leb i.expires_at input.read_at
    then expire_invitation input i
    else return tt

-- The writes of an admitted acceptance.
unfoldable pub join : AcceptInput → Invitation → String → RoleCode → Body AcceptResult
join input i user_id role = do
  existing ← query (λ (db : Db).
      any (λ (m : Membership). m.tenant_id == i.tenant_id && m.user_id == user_id) db.memberships)
  check (not existing) (thrown (api membership_already_exists))
  found ← query (λ (db : Db). find (λ (w : Workshop). w.id == i.tenant_id) db.workshops)
  workshop ← or_throw (thrown (internal "INVITATION_WORKSHOP_NOT_VISIBLE")) found
  attempt (insert_membership (new_membership input i user_id)) raised
  attempt (insert_membership_role (new_role input i role)) raised
  rows ←
      attempt (update_invitations input.written_at (is_locked i) (set_accepted input user_id))
        raised
  check (length rows == 1) (thrown (internal "INVITATION_ACCEPT_RESULT_MISSING"))
  insert_audits (acceptance_audits input i user_id role)
  return (record {
    membership_id = input.membership_id;
    tenant_id = i.tenant_id;
    roles = role ∷ [];
    workshop = workshop;
  })

-- The body of the transaction.
unfoldable pub accept_body : AcceptInput → Body AcceptResult
accept_body input = do
  user_id ← accepting_user input
  found ← query (resolve_invitation input.token_hash)
  resolved ← or_throw (thrown (api invitation_invalid)) found
  locked ←
      attempt (lock_invitation input.lock_times_out resolved.id resolved.tenant_id input.token_hash)
        raised
  i ← or_throw (thrown (api invitation_invalid)) locked
  role ← attempt (parse_role i.role_code) thrown
  admit input i user_id
  join input i user_id role

-- The errors that the `catch` maps.
abbrev pub mapped : InvitationError → InvitationError
mapped (database mi_accept_after_deadline) = api invitation_expired
mapped (database memberships_tenant_user_key) = api membership_already_exists
mapped (database lock_not_available) = api invitation_in_progress
mapped (database mi_delivery_in_progress) = api invitation_in_progress
mapped e = e

-- COMMIT or ROLLBACK: `before` is what a ROLLBACK restores.
abbrev pub settle :
    Bool → Db → Result Thrown AcceptResult × Db → Result InvitationError AcceptResult × Db
settle false before (ok result, after) = (ok result, after)
settle true before (ok result, after) = (err (internal "COMMIT_FAILED"), before)
settle false before (err (commit_then_throw code), after) = (err (api code), after)
settle true before (err (commit_then_throw code), after) =
    (err (internal "INVITATION_OUTCOME_COMMIT_FAILED"), before)
settle fails before (err (thrown e), after) = (err (mapped e), before)

unfoldable pub accept_invitation : AcceptInput → Db → Result InvitationError AcceptResult × Db
accept_invitation input db = settle input.commit_fails db (accept_body input db)
