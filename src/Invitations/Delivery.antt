-- ===== src/Invitations/Delivery.antt =====
-- The worker's handler of an invitation's email job: createInvitationEmailHandler of
-- src/invitations/email.ts. Its state is the tables and the requests that were made to the provider.
-- Instants of the monotonic clock are milliseconds; a deadline that has passed leaves the window zero.
pub mod Recording
pub mod Laws
use taller_mecario_b.Base.{
  ℕ, ◌+◌, ◌-◌, ◌*◌, ◌/◌, String, ◌<>◌, Bool, true, false, ◌&&◌, ◌||◌, not, List, [], ◌∷◌, ◌++◌,
  Option, none, some, Result, ok, err, find, leb, ltb, min, ◌==◌, string_key, nat_key, map,
  if◌then◌else◌,
}
use taller_mecario_b.Base.Steps.{
  Step, return, throw, check, query, modify, attempt, ◌>>=◌, ◌>>◌, or_throw,
}
use taller_mecario_b.Outbox.Store.{OutboxEvent}
use taller_mecario_b.Outbox.Publish.{sql_eqb}
use taller_mecario_b.Invitations.Store.{
  InvitationStatus, pending, accepted, expired, revoked, invitation_status_key, Invitation, system,
  success, Json, JsonObject, AuditRow, Db,
}
use taller_mecario_b.Invitations.Token.{
  Crypto, TokenKey, TokenError, derive_token, token_matches_hash, is_token_format,
}
use taller_mecario_b.Invitations.Message.{
  Formats, Snapshot, accepts_snapshot, EmailMessage, render_email,
}
use taller_mecario_b.Invitations.Create.{EmailPayload}
use taller_mecario_b.Invitations.Leases.{
  LeaseOutcome, acquired, already_sent, busy, not_claimed, not_found, skip, LeaseReply, LeaseError,
  acquire_lease, Completion, recorded, already_recorded, LeaseState, held, lapsed, superseded,
  complete_lease, release_lease,
}
use taller_mecario_b.Invitations.Sender.{DispatchError, transient, permanent, SendError}

pub record EmailRequest : Type 0 where
  pub message : EmailMessage
  pub key : String
  pub timeout : ℕ

pub record World : Type 0 where
  pub db : Db
  pub requests : List EmailRequest

-- What is fixed for a worker, the libraries that it calls among it. `decode` reads a payload's JSON
-- text; `is_uuid` is the test of zod's uuid schema.
pub record Worker : Type 0 where
  pub crypto : Crypto
  pub formats : Formats
  pub decode : String → Option EmailPayload
  pub is_uuid : String → Bool
  pub token_key : TokenKey
  pub send_timeout : ℕ
  pub lease_seconds : Option ℕ
  pub send : EmailRequest → Result SendError String

-- What the clocks and the generator of ids give to one attempt, and what other connections commit
-- between its read transaction and the acquisition of its lease.
pub record Attempt : Type 0 where
  pub read_at : ℕ
  pub started_at : ℕ
  pub lease_id : String
  pub leased_at : ℕ
  pub ready_at : ℕ
  pub meanwhile : Db → Db

pub data Prepared : Type 0 where
  sent : String → String → String → Prepared
  skipped : String → InvitationStatus → Bool → Prepared
  sent_before : String → Prepared

abbrev pub Run : Type 0 → Type 0
Run A = Step World DispatchError A

-- The length of a lease: by default the request timeout, rounded up to seconds, and a margin.
abbrev pub lease_length : Worker → ℕ
lease_length worker = elim worker.lease_seconds [
  | none ↦ (worker.send_timeout + 999) / 1000 + 15
  | some seconds ↦ seconds
]

abbrev pub idempotency_key : String → String
idempotency_key invitation_id = "membership-invitation/" <> invitation_id

-- `payloadSchema`.
abbrev pub accepts_payload : Worker → EmailPayload → Bool
accepts_payload worker payload =
    worker.is_uuid payload.invitation_id
    && is_token_format payload.token_nonce
    && leb 1 payload.token_key_version
    && accepts_snapshot worker.formats payload.delivery

abbrev invalid_payload : DispatchError
invalid_payload = permanent "INVITATION_EMAIL_PAYLOAD_INVALID"

abbrev is_some_text : Option String → Bool
is_some_text none = false
is_some_text (some value) = not (value == "")

-- The payload of an event, checked.
unfoldable pub read_payload : Worker → OutboxEvent → Run EmailPayload
read_payload worker event = do
  check (event.event_version == 2) (permanent "INVITATION_EMAIL_EVENT_VERSION_UNSUPPORTED")
  payload ← or_throw invalid_payload (worker.decode event.payload)
  check (accepts_payload worker payload) invalid_payload
  check (is_some_text event.tenant_id && sql_eqb event.aggregate_id (some payload.invitation_id))
      invalid_payload
  check (payload.token_key_version == worker.token_key.version)
      (permanent "INVITATION_TOKEN_KEY_VERSION_UNKNOWN")
  return payload

abbrev pub is_target : Option String → String → Invitation → Bool
is_target tenant_id id i = i.id == id && sql_eqb tenant_id (some i.tenant_id)

abbrev pub message_of : Worker → EmailPayload → Invitation → String → EmailMessage
message_of worker payload i token =
    render_email worker.formats payload.delivery i.email
      (worker.formats.accept_link payload.delivery.accept_url token)

abbrev pub checked_message :
    Worker → EmailPayload → Invitation → Result TokenError String → Run (Option EmailMessage)
checked_message worker payload i (err e) = throw (transient "INVITATION_TOKEN_NONCE_INVALID")
checked_message worker payload i (ok token) =
    if token_matches_hash worker.crypto token i.token_hash
    then return (some (message_of worker payload i token))
    else throw (permanent "INVITATION_TOKEN_MISMATCH")

-- The message, where the row that was read is pending and not past its deadline.
unfoldable pub prepare_message : Worker → EmailPayload → Invitation → ℕ → Run (Option EmailMessage)
prepare_message worker payload i read_at =
    if i.status == pending && not (leb i.expires_at read_at)
    then checked_message worker payload i
        (derive_token worker.crypto worker.token_key payload.invitation_id payload.token_nonce)
    else return none

abbrev pub on_db : {A : Type 0} → World → Result LeaseError A × Db → Result DispatchError A × World
on_db w (ok a, db) = (ok a, record w { db = db })
on_db w (err e, db) = (err (transient "DATABASE_ERROR"), record w { db = db })

unfoldable pub acquire : Worker → OutboxEvent → Attempt → Run LeaseReply
acquire worker event at w =
    on_db w
      (acquire_lease at.leased_at event.id at.lease_id (lease_length worker) (at.meanwhile w.db))

-- `releaseLease`: a failure of it is ignored.
unfoldable pub release : OutboxEvent → Attempt → Run (Unit {0})
release event at = modify (λ (w : World). record w { db = release_lease event.id at.lease_id w.db })

-- The safety margin and the least window, in milliseconds.
abbrev pub lease_safety : ℕ
lease_safety = 2000

abbrev pub min_send_window : ℕ
min_send_window = 1000

-- What is left of the lease for a request.
abbrev pub send_window : Worker → Attempt → ℕ
send_window worker at =
    min worker.send_timeout
      (at.started_at + lease_length worker * 1000 - lease_safety - at.ready_at)

abbrev pub request_of : Worker → Attempt → EmailPayload → EmailMessage → EmailRequest
request_of worker at payload message = record {
  message = message;
  key = idempotency_key payload.invitation_id;
  timeout = send_window worker at;
}

-- The end of an attempt whose request was answered.
abbrev pub settle_send :
    OutboxEvent → Attempt → EmailPayload → Result SendError String → Run Prepared
settle_send event at payload (ok message_id) =
    return (sent payload.invitation_id at.lease_id message_id)
settle_send event at payload (err e) =
    if e.is_rejection then (release event at >> throw e.error) else throw e.error

-- The request, where the whole of it fits into the lease.
unfoldable pub send_message :
    Worker → OutboxEvent → Attempt → EmailPayload → EmailMessage → Run Prepared
unfolding release
send_message worker event at payload message =
    if ltb (send_window worker at) min_send_window
    then (release event at >> throw (transient "INVITATION_EMAIL_LEASE_WINDOW_TOO_SHORT"))
    else (do
      modify (λ (w : World). record w {
        requests = w.requests ++ request_of worker at payload message ∷ [];
      })
      settle_send event at payload (worker.send (request_of worker at payload message)))

abbrev pub send_leased :
    Worker → OutboxEvent → Attempt → EmailPayload → Option EmailMessage → Run Prepared
send_leased worker event at payload none = do
  release event at
  throw (transient "INVITATION_EMAIL_STATE_INCONSISTENT")
send_leased worker event at payload (some message) = send_message worker event at payload message

-- What each outcome of the lease leads to.
abbrev pub on_lease :
    Worker
    → OutboxEvent
    → Attempt
    → EmailPayload
    → Option EmailMessage
    → LeaseOutcome
    → Bool
    → Run Prepared
on_lease worker event at payload message acquired prior =
    send_leased worker event at payload message
on_lease worker event at payload message (skip status) prior =
    return (skipped payload.invitation_id status prior)
on_lease worker event at payload message already_sent prior =
    return (sent_before payload.invitation_id)
on_lease worker event at payload message busy prior =
    throw (transient "INVITATION_EMAIL_LEASE_BUSY")
on_lease worker event at payload message not_claimed prior =
    throw (transient "INVITATION_EMAIL_JOB_NOT_CLAIMED")
on_lease worker event at payload message not_found prior =
    throw (permanent "INVITATION_EMAIL_TARGET_NOT_FOUND")

-- `prepare`.
unfoldable pub prepare : Worker → OutboxEvent → Attempt → Run Prepared
prepare worker event at = do
  payload ← read_payload worker event
  found ←
      query (λ (w : World). find (is_target event.tenant_id payload.invitation_id) w.db.invitations)
  i ← or_throw (permanent "INVITATION_EMAIL_TARGET_NOT_FOUND") found
  message ← prepare_message worker payload i at.read_at
  reply ← acquire worker event at
  on_lease worker event at payload message reply.outcome reply.prior_attempt_unconfirmed
