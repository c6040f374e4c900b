-- ===== src/Wompi/Webhooks.antt =====
-- The webhook of a transaction: src/integrations/wompi/webhook-processor.ts. The schema of the payload and
-- app.apply_wompi_payment_status are inputs. The state is the log of the attempts.
pub mod Laws
use taller_mecario_b.Base.{
  ℕ, String, List, [], ◌∷◌, ◌++◌, Option, none, some, Result, ok, err, ◌==◌, string_key, nat_key,
  if◌then◌else◌,
}
use taller_mecario_b.Base.Steps.{Step, return, throw, ◌>>=◌, ◌>>◌}
use taller_mecario_b.Wompi.Charges.{ProviderStatus}

pub data WebhookAttemptStatus : Type 0 where
  succeeded retryable_error permanent_error : WebhookAttemptStatus

pub record WebhookAttempt : Type 0 where
  pub webhook_event_id : String
  pub attempt_number : ℕ
  pub status : WebhookAttemptStatus
  pub error_code : Option String
  pub error_message : Option String

pub record WebhookEvent : Type 0 where
  pub webhook_event_id : String
  pub transaction_id : String
  pub reference : String
  pub status : ProviderStatus
  pub amount_minor : ℕ

pub data WebhookOutcome : Type 0 where
  applied duplicate : WebhookOutcome

-- A payload: the event that its schema gives, and the text at `webhook_event_id`.
pub record WebhookInput : Type 0 where
  pub event : Option WebhookEvent
  pub webhook_event_id : Option String
  pub attempt_number : ℕ
  -- `applyWebhookStatus`, and the error that an `appendAttempt` throws: its function only inserts the row.
  pub apply_status : WebhookEvent → Result String WebhookOutcome
  pub append_error : WebhookAttempt → Option String

abbrev pub Log : Type 0 → Type 0
Log A = Step (List WebhookAttempt) String A

-- `appendAttempt`: a row that is refused is not there.
abbrev pub appended : Option String → WebhookAttempt → Log (Unit {0})
appended none row attempts = (ok tt, attempts ++ row ∷ [])
appended (some e) row attempts = (err e, attempts)

abbrev pub append_attempt : WebhookInput → WebhookAttempt → Log (Unit {0})
append_attempt input row = appended (input.append_error row) row

abbrev pub attempt_row :
    WebhookInput → String → WebhookAttemptStatus → Option String → Option String → WebhookAttempt
attempt_row input id status code message = record {
  webhook_event_id = id;
  attempt_number = input.attempt_number;
  status = status;
  error_code = code;
  error_message = message;
}

abbrev pub mismatch : String
mismatch = "WOMPI_TRANSACTION_CORRELATION_MISMATCH"

abbrev pub failure_row : WebhookInput → WebhookEvent → String → WebhookAttempt
failure_row input event e =
    if e == mismatch
    then attempt_row input event.webhook_event_id permanent_error (some mismatch)
        (some "Transaction correlation failed.")
    else attempt_row input event.webhook_event_id retryable_error
        (some "WOMPI_WEBHOOK_PROCESSING_FAILED") (some "Webhook processing failed.")

-- The `catch` of the second `try`.
abbrev pub caught :
    WebhookInput
    → WebhookEvent
    → Result String WebhookOutcome × List WebhookAttempt
    → Result String WebhookOutcome × List WebhookAttempt
caught input event (ok outcome, attempts) = (ok outcome, attempts)
caught input event (err e, attempts) =
    (append_attempt input (failure_row input event e) >> throw e) attempts

abbrev pub tried : {A : Type 0} → Result String A → Log A
tried (ok a) = return a
tried (err e) = throw e

abbrev pub process_event : WebhookInput → WebhookEvent → Log WebhookOutcome
process_event input event = do
  outcome ← tried (input.apply_status event)
  append_attempt input (attempt_row input event.webhook_event_id succeeded none none)
  return outcome

abbrev pub refuse_event : WebhookInput → Option String → Log WebhookOutcome
refuse_event input none = throw "WOMPI_WEBHOOK_EVENT_ID_MISSING"
refuse_event input (some id) = do
  append_attempt input (
      attempt_row input id permanent_error (some "WOMPI_NORMALIZED_EVENT_INVALID")
        (some "Normalized event validation failed."))
  throw "WOMPI_NORMALIZED_EVENT_INVALID"

-- `processWompiWebhookOutbox`.
unfoldable pub process_webhook : WebhookInput → Log WebhookOutcome
process_webhook input attempts = elim input.event [
  | none ↦ refuse_event input input.webhook_event_id attempts
  | some event ↦ caught input event (process_event input event attempts)
]
