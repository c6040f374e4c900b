-- ===== src/Invitations/Delivery/Recording.antt =====
-- How a prepared delivery is recorded in the transaction of its job: apply of
-- createInvitationEmailHandler of src/invitations/email.ts.
use taller_mecario_b.Base.{
  ℕ, String, ◌<>◌, Bool, true, false, [], ◌∷◌, ◌++◌, Option, none, some, Result, ok, err,
  string_key, nat_key,
}
use taller_mecario_b.Outbox.Store.{OutboxEvent}
use taller_mecario_b.Invitations.Store.{
  InvitationStatus, pending, accepted, expired, revoked, invitation_status_key, system, success,
  Json, JsonObject, AuditRow, Db,
}
use taller_mecario_b.Invitations.Leases.{
  LeaseError, Completion, recorded, already_recorded, LeaseState, held, lapsed, superseded,
  complete_lease,
}
use taller_mecario_b.Invitations.Delivery.{Prepared, sent, skipped, sent_before}

abbrev status_text : InvitationStatus → String
status_text pending = "pending"
status_text accepted = "accepted"
status_text expired = "expired"
status_text revoked = "revoked"

abbrev state_text : LeaseState → String
state_text held = "held"
state_text lapsed = "expired"
state_text superseded = "superseded"

abbrev job_audit : OutboxEvent → String → String → JsonObject → AuditRow
job_audit event invitation_id action metadata = record {
  tenant_id = event.tenant_id;
  actor_type = system;
  actor_user_id = none;
  actor_membership_id = none;
  action = action;
  outcome = success;
  entity_type = "membership_invitation";
  entity_id = some invitation_id;
  reason_code = some "membership_invitation";
  before = none;
  after = none;
  metadata = some metadata;
  request_id = "outbox:" <> event.id;
  ip_address = none;
}

abbrev status_json : Option InvitationStatus → Json
status_json none = Json.null
status_json (some status) = Json.text (status_text status)

abbrev recorded_status : LeaseState → Option InvitationStatus → JsonObject
recorded_status held status = []
recorded_status _ status = ("invitation_status_at_record", status_json status) ∷ []

abbrev sent_metadata : OutboxEvent → String → LeaseState → Option InvitationStatus → JsonObject
sent_metadata event message_id state status =
    ("provider", Json.text "resend")
    ∷ ("provider_message_id", Json.text message_id)
    ∷ ("outbox_event_id", Json.text event.id)
    ∷ ("attempt", Json.number event.attempts)
    ∷ ("lease_state", Json.text (state_text state))
    ∷ recorded_status state status

abbrev prior_json : Bool → JsonObject
prior_json true = ("prior_attempt_unconfirmed", Json.flag true) ∷ []
prior_json false = []

abbrev skipped_metadata : OutboxEvent → InvitationStatus → Bool → JsonObject
skipped_metadata event reason prior =
    ("reason", Json.text (status_text reason))
    ∷ ("outbox_event_id", Json.text event.id)
    ∷ ("attempt", Json.number event.attempts)
    ∷ prior_json prior

abbrev with_audit : AuditRow → Db → Db
with_audit row db = record db { audit_logs = db.audit_logs ++ row ∷ [] }

-- The audit row of a completion, unless the delivery was recorded before.
abbrev pub audit_completion :
    OutboxEvent
    → String
    → String
    → Result LeaseError Completion × Db
    → Result LeaseError (Unit {0}) × Db
audit_completion event id message_id (err e, db) = (err e, db)
audit_completion event id message_id (ok already_recorded, db) = (ok tt, db)
audit_completion event id message_id (ok (recorded state status), db) = (
  ok tt,
  with_audit
      (job_audit event id "membership.invitation_email_sent"
        (sent_metadata event message_id state status))
      db,
)

-- `apply`, in the worker's transaction of the job: `now` is the instant of the completion.
unfoldable pub apply : OutboxEvent → ℕ → Prepared → Db → Result LeaseError (Unit {0}) × Db
apply event now (sent_before id) db = (ok tt, db)
apply event now (sent id lease_id message_id) db =
    audit_completion event id message_id (complete_lease now event.id lease_id message_id db)
apply event now (skipped id reason prior) db = (
  ok tt,
  with_audit
      (job_audit event id "membership.invitation_email_skipped"
        (skipped_metadata event reason prior))
      db,
)
