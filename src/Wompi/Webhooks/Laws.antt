-- ===== src/Wompi/Webhooks/Laws.antt =====
-- What a run on a webhook leaves in the log of the attempts.
use taller_mecario_b.Base.{
  String, false, List, [], ◌∷◌, ◌++◌, Option, none, some, Result, ok, err, ◌==◌, string_key,
  ==_sound, ◌≡◌, refl, sym, subst, ◌⊎◌, inl, inr, Bool-cases,
}
use taller_mecario_b.Base.Steps.{proceed, return, throw, ◌>>=◌, ◌>>◌}
use taller_mecario_b.Wompi.Webhooks.{
  WebhookAttempt, WebhookAttemptStatus, succeeded, retryable_error, permanent_error, WebhookEvent,
  WebhookInput, WebhookOutcome, attempt_row, failure_row, mismatch, appended, append_attempt, tried,
  process_event, refuse_event, caught, process_webhook,
}

-- The status of an attempt that ends so: permanent are the failure of the event's schema and that of
-- the correlation, and no other.
pub data Judged (input : WebhookInput)
    : Result String WebhookOutcome → WebhookAttemptStatus → Type 0 where
  returned : (outcome : WebhookOutcome) → Judged input (ok outcome) succeeded
  invalid : (e : String) → input.event ≡ none → Judged input (err e) permanent_error
  uncorrelated :
      (event : WebhookEvent)
      → input.event ≡ some event
      → Judged input (err "WOMPI_TRANSACTION_CORRELATION_MISMATCH") permanent_error
  passing :
      (event : WebhookEvent) (e : String)
      → input.event ≡ some event
      → (e == "WOMPI_TRANSACTION_CORRELATION_MISMATCH") ≡ false
      → Judged input (err e) retryable_error

-- A run logs one attempt, or none, where the log refuses the row or there is no event to log it under.
pub data Logged (input : WebhookInput) (before : List WebhookAttempt)
    : Result String WebhookOutcome × List WebhookAttempt → Type 0 where
  logged :
      (r : Result String WebhookOutcome) (row : WebhookAttempt)
      → row.attempt_number ≡ input.attempt_number
      → ((event : WebhookEvent)
          → input.event ≡ some event
          → row.webhook_event_id ≡ event.webhook_event_id)
      → Judged input r row.status
      → Logged input before (r, before ++ row ∷ [])
  silent :
      (e : String)
      → ((row : WebhookAttempt) × (input.append_error row ≡ some e))
        ⊎ ((input.event ≡ none) × (input.webhook_event_id ≡ none))
      → Logged input before (err e, before)

module _ (input : WebhookInput) (before : List WebhookAttempt) where
  module _ (event : WebhookEvent) (valid : input.event ≡ some event) where
    same_event :
        (id : String)
        → id ≡ event.webhook_event_id
        → (other : WebhookEvent) → input.event ≡ some other
        → id ≡ other.webhook_event_id
    same_event id own other at = let it : event ≡ other = cc in rw (own, it) refl

    failure : String → Result String WebhookOutcome × List WebhookAttempt
    failure e = (err e, before ++ failure_row input event e ∷ [])

    failure-Logged : (e : String) → Logged input before (failure e)
    unfolding failure
    failure-Logged e = elim (Bool-cases (e == mismatch)) [
      | inl hit ↦
          subst (λ (x : String). Logged input before (failure x)) (sym (==_sound e mismatch hit))
            (logged _ _ refl (same_event _ refl) (uncorrelated event valid))
      | inr miss ↦ rw miss (logged _ _ refl (same_event _ refl) (passing event e valid miss))
    ]

    caught-Logged : (e : String) → Logged input before (caught input event (err e, before))
    unfolding ◌>>=◌ throw failure
    caught-Logged e = by_append (input.append_error row) refl
      where
        row : WebhookAttempt
        row = failure_row input event e

        by_append :
            (o : Option String)
            → input.append_error row ≡ o
            → Logged input before (proceed (λ _. throw e) (appended o row before))
        by_append none h = failure-Logged e
        by_append (some other) h = silent other (inl (row, h))

    process_event-Logged :
        Logged input before (caught input event (process_event input event before))
    unfolding ◌>>=◌ return throw
    process_event-Logged = by_apply (input.apply_status event)
      where
        row : WebhookAttempt
        row = attempt_row input event.webhook_event_id succeeded none none

        by_append :
            (outcome : WebhookOutcome) (o : Option String)
            → Logged input before
                (caught input event (proceed (λ _. return outcome) (appended o row before)))
        by_append outcome none = logged _ row refl (same_event _ refl) (returned outcome)
        by_append outcome (some e) = caught-Logged e

        by_apply :
            (r : Result String WebhookOutcome)
            → Logged input before (
                caught input event (
                  proceed (λ outcome. append_attempt input row >> return outcome) (tried r before)))
        by_apply (ok outcome) = by_append outcome (input.append_error row)
        by_apply (err e) = caught-Logged e

  refuse_event-Logged :
      input.event ≡ none
      → (id : Option String) → input.webhook_event_id ≡ id
      → Logged input before (refuse_event input id before)
  unfolding ◌>>=◌ throw
  refuse_event-Logged gone none h = silent _ (inr (gone, h))
  refuse_event-Logged gone (some id) h = by_append (input.append_error row) refl
    where
      row : WebhookAttempt
      row =
          attempt_row input id permanent_error (some "WOMPI_NORMALIZED_EVENT_INVALID")
            (some "Normalized event validation failed.")

      by_append :
          (o : Option String)
          → input.append_error row ≡ o
          → Logged input before
              (proceed (λ _. throw "WOMPI_NORMALIZED_EVENT_INVALID") (appended o row before))
      by_append none h = logged _ row refl (λ event at. cc) (invalid _ gone)
      by_append (some e) h = silent e (inl (row, h))

-- Every run on a webhook logs at most one attempt, of its number and of its event where that is valid.
-- The attempt has succeeded exactly where the run returns; a failure is permanent where the event is not
-- valid or its transaction does not correlate, and retryable otherwise. A run that logs none throws: the
-- log refused a row, and that is the error, or the payload has neither a valid event nor an id.
pub process_webhook-Logged :
    (input : WebhookInput) (before : List WebhookAttempt)
    → Logged input before (process_webhook input before)
unfolding process_webhook
process_webhook-Logged input before = by_event input.event refl
  where
    by_event :
        (o : Option WebhookEvent)
        → input.event ≡ o
        → Logged input before (elim o [
          | none ↦ refuse_event input input.webhook_event_id before
          | some event ↦ caught input event (process_event input event before)
        ])
    by_event none h = refuse_event-Logged input before h input.webhook_event_id refl
    by_event (some event) h = process_event-Logged input before event h
