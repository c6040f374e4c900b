-- ===== src/Invitations/Create.antt =====
-- Creation of an invitation in the request's transaction: createInvitation of src/invitations/service.ts.
-- The instants of its two statements that read clock_timestamp(), the fresh ids and nonce, and the JSON
-- text of the payload are inputs.
use taller_mecario_b.Base.{
  ℕ, ◌+◌, ◌*◌, String, Bool, false, ◌&&◌, List, [], ◌∷◌, none, some, Result, any, find, leb, ◌==◌,
  string_key, nat_key, map,
}
use taller_mecario_b.Base.Steps.{Step, check, query, attempt, ◌>>=◌, ◌>>◌, or_throw}
use taller_mecario_b.Authz.Roles.{RoleCode, role_text, role_key}
use taller_mecario_b.Outbox.Publish.{
  OutboxEventInput, PublishResult, PublishError, publish_outbox_event,
}
use taller_mecario_b.Outbox.Store.{OutboxRow}
use taller_mecario_b.Invitations.Store.{
  pending, invitation_status_key, Invitation, success, text, instant, Db, Violation,
  mi_one_pending_per_email_uq, invitation_already_pending, InvitationError, api, internal, database,
}
use taller_mecario_b.Invitations.Statements.{update_invitations, insert_invitation}
use taller_mecario_b.Invitations.Token.{Crypto, TokenKey, derive_token}
use taller_mecario_b.Invitations.Message.{Formats, Snapshot, build_snapshot}
use taller_mecario_b.Invitations.Request.{
  Tx, InvitationDto, parse_role, to_dto, insert_audit, insert_audits, RequestContext, entity,
  actor_audit, require_assignable, expired_audit, set_expired, lifted,
}

abbrev pub is_stale : String → String → ℕ → Invitation → Bool
is_stale tenant_id email now i =
    i.tenant_id == tenant_id
    && (i.email_normalized == email && i.status == pending)
    && leb i.expires_at now

pub record CreateInput : Type 0 where
  pub email : String
  pub email_normalized : String
  pub role : String

pub record ApiConfig : Type 0 where
  pub token_key : TokenKey
  pub accept_url : String
  pub from : String

pub record EmailPayload : Type 0 where
  pub invitation_id : String
  pub token_nonce : String
  pub token_key_version : ℕ
  pub delivery : Snapshot

-- What the code outside gives to one creation: the instants of the two statements, the fresh values.
pub record Fresh : Type 0 where
  pub swept_at : ℕ
  pub inserted_at : ℕ
  pub invitation_id : String
  pub nonce : String
  pub event_id : String

pub record Library : Type 0 where
  pub crypto : Crypto
  pub formats : Formats
  pub json_text : EmailPayload → String

abbrev pub ttl_seconds : ℕ
ttl_seconds = 7 * 86400

abbrev pub inserting : Violation → InvitationError
inserting mi_one_pending_per_email_uq = api invitation_already_pending
inserting v = database v

abbrev pub new_invitation : RequestContext → CreateInput → RoleCode → Fresh → String → Invitation
new_invitation context input role fresh token_hash = record {
  id = fresh.invitation_id;
  tenant_id = context.tenant.tenant_id;
  email = input.email;
  email_normalized = input.email_normalized;
  role_code = role_text role;
  token_hash = token_hash;
  status = pending;
  expires_at = fresh.inserted_at + ttl_seconds;
  accepted_at = none;
  accepted_by_user_id = none;
  accepted_membership_id = none;
  invited_by_membership_id = context.tenant.membership_id;
  revoked_at = none;
  revoked_by_membership_id = none;
  created_at = context.now;
}

abbrev pub published :
    Db → Result PublishError PublishResult × List OutboxRow → Result PublishError PublishResult × Db
published db (r, rows) = (r, record db { outbox_events = rows })

-- `publishOutboxEvent` on the transaction's connection.
unfoldable pub publish : OutboxEventInput → ℕ → Step Db PublishError PublishResult
unfolding publish_outbox_event
publish input now db = published db (publish_outbox_event input now db.outbox_events)

abbrev pub event_type : String
event_type = "membership.invitation_email_requested"

abbrev pub email_event : Library → RequestContext → Fresh → EmailPayload → OutboxEventInput
email_event library context fresh payload = record {
  id = fresh.event_id;
  tenant_id = context.tenant.tenant_id;
  aggregate_type = entity;
  aggregate_id = some fresh.invitation_id;
  event_type = event_type;
  event_version = some 2;
  payload = library.json_text payload;
  idempotency_key = some fresh.invitation_id;
}

unfoldable pub create_invitation :
    Library → ApiConfig → RequestContext → CreateInput → Fresh → Tx InvitationDto
unfolding build_snapshot derive_token
create_invitation library config context input fresh = do
  role ← parse_role input.role
  require_assignable context "membership.invited" none role
  configured ← query (λ (db : Db). any (λ code. code == role) db.tenant_roles)
  check configured (internal "INVITATION_ROLE_NOT_CONFIGURED")
  stale ←
      attempt
        (update_invitations fresh.swept_at
          (is_stale context.tenant.tenant_id input.email_normalized fresh.swept_at) set_expired)
        database
  insert_audits (map (expired_audit context.meta "invitation_create") stale)
  token ←
      lifted (λ _. internal "INVITATION_TOKEN_NONCE_INVALID")
        (derive_token library.crypto config.token_key fresh.invitation_id fresh.nonce)
  created ←
      attempt
        (insert_invitation fresh.inserted_at
          (new_invitation context input role fresh (library.crypto.sha256_hex token)))
        inserting
  found ← query (λ (db : Db). find (λ w. w.id == context.tenant.tenant_id) db.workshops)
  workshop ← or_throw (internal "INVITATION_WORKSHOP_NOT_VISIBLE") found
  delivery ←
      lifted (λ _. internal "DELIVERY_SNAPSHOT_INVALID")
        (build_snapshot library.formats (record {
          from = config.from;
          accept_url = config.accept_url;
          workshop_name = workshop.display_name;
          role = role;
          expires_at = created.expires_at;
        }))
  sent ←
      attempt
        (publish
          (email_event library context fresh (record {
            invitation_id = fresh.invitation_id;
            token_nonce = fresh.nonce;
            token_key_version = config.token_key.version;
            delivery = delivery;
          }))
          context.now)
        (λ _. internal "OUTBOX_PUBLISH")
  insert_audit (
      actor_audit context "membership.invited" success (some fresh.invitation_id)
        "membership_invitation" none
        (some (
          ("status", text "pending")
          ∷ ("target_role", text (role_text role))
          ∷ ("expires_at", instant created.expires_at)
          ∷ []))
        none)
  to_dto created false
