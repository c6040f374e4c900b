-- ===== src/Outbox/Worker/Outcomes.antt =====
-- The outcomes of a processed job: what is written with which, and the retry policy.
use taller_mecario_b.Base.{
  ap, ℕ, ◌<◌, ◌≤◌, Bool, true, false, List, Option, none, some, Result, ok, err, any, string_key,
  ltb, ◌≡◌, refl, arith, ◌⊎◌, inl, inr, Bool-cases, subst,
}
use taller_mecario_b.Outbox.Store.{
  processed, retry, dead_letter, failed, OutboxOutcome, OutboxEvent, OutboxRow, ClaimedJob,
}
use taller_mecario_b.Outbox.Sql.{worker_get_outbox_event, is_claimed, worker_complete_outbox_event}
use taller_mecario_b.Outbox.Worker.{
  compute_retry_delay_seconds, delay_of, DispatchError, finished, already_finished, ProcessResult,
  WorkerError, World, PhasedOutboxHandler, OutboxWorkerOptions, Surroundings, before_transaction,
  on_network, before_transition, claim_matches_event, record_attempt, commit_processed, end_attempt,
  fail_phased, phase_c, process_phased_job, process_event, process_claimed_job, run_handler,
  outcome_of, failure_outcome,
}
use taller_mecario_b.Outbox.Worker.Cases.{process_claimed_job-cases}

-- The outcome that a failure has: by whether its error is permanent, and the attempts that were made.
pub data Judged (max_attempts attempts : ℕ) (permanent : Bool) : OutboxOutcome → Type 0 where
  rejected : permanent ≡ true → Judged max_attempts attempts permanent failed
  again : permanent ≡ false → attempts < max_attempts → Judged max_attempts attempts permanent retry
  exhausted :
      permanent ≡ false
      → max_attempts ≤ attempts
      → Judged max_attempts attempts permanent dead_letter

module _ {D P : Type 0} (options : OutboxWorkerOptions D P) (around : Surroundings D)
    (job : ClaimedJob) where
  -- The errors that an attempt on an event can meet.
  pub data Raised (event : OutboxEvent) (error : DispatchError) : Type 0 where
    by_handler :
        (domain : D)
        → run_handler (options.handlers event.event_type) event domain ≡ err error
        → Raised event error
    by_prepare :
        (handler : PhasedOutboxHandler D P) (domain : D)
        → options.phased_handlers event.event_type ≡ some handler
        → handler.prepare event domain ≡ err error
        → Raised event error
    by_apply :
        (handler : PhasedOutboxHandler D P) (prepared : P) (domain : D)
        → options.phased_handlers event.event_type ≡ some handler
        → handler.apply event prepared domain ≡ err error
        → Raised event error
    by_commit : around.commit_error ≡ some error → Raised event error

  -- The work that an attempt on an event can have done, by the tables that it leaves.
  pub data Returned (event : OutboxEvent) (after : D) : Type 0 where
    plain :
        (domain : D)
        → run_handler (options.handlers event.event_type) event domain ≡ ok after
        → Returned event after
    phased :
        (handler : PhasedOutboxHandler D P) (prepared : P) (before domain : D)
        → options.phased_handlers event.event_type ≡ some handler
        → handler.prepare event before ≡ ok prepared
        → handler.apply event prepared domain ≡ ok after
        → Returned event after

  -- The end of a job, by its reply, with the completion of its row, in the rows that it met.
  pub data Policy (result : ProcessResult) (after : World D) : Type 0 where
    was_gone :
        worker_get_outbox_event job.outbox_event_id after.rows ≡ none
        → result.outcome ≡ already_finished
        → result.attempts ≡ none
        → Policy result after
    was_committed :
        (event : OutboxEvent) (rows : List OutboxRow)
        → claim_matches_event job event ≡ true
        → Returned event after.domain
        → around.commit_error ≡ none
        → result.attempts ≡ some event.attempts
        → ((result.outcome ≡ finished processed)
            × (any (is_claimed job.outbox_event_id) rows ≡ true))
          ⊎ ((result.outcome ≡ already_finished)
              × (any (is_claimed job.outbox_event_id) rows ≡ false))
        → after.rows
          ≡ (worker_complete_outbox_event job.outbox_event_id processed none 0 around.now rows).1
        → Policy result after
    was_failed :
        (event : OutboxEvent) (error : DispatchError) (outcome : OutboxOutcome) (delay : ℕ)
        (rows : List OutboxRow)
        → claim_matches_event job event ≡ true
        → Raised event error
        → Judged options.max_attempts event.attempts error.permanent outcome
        → (outcome ≡ retry
            → delay
              ≡ compute_retry_delay_seconds event.attempts options.base_delay_seconds
                  options.max_delay_seconds)
        → result.outcome ≡ finished outcome
        → result.attempts ≡ some event.attempts
        → after.rows
          ≡ (worker_complete_outbox_event job.outbox_event_id outcome
              (some error.message)
              delay
              around.now
              rows).1
        → Policy result after

  module _ (event : OutboxEvent) (matches : claim_matches_event job event ≡ true) where
    failure-Judged :
        (error : DispatchError)
        → Judged options.max_attempts event.attempts error.permanent
            (failure_outcome options event error)
    failure-Judged error = elim (Bool-cases error.permanent) [
      | inl permanent ↦ rw permanent (rejected refl)
      | inr transient ↦ elim (Bool-cases (ltb event.attempts options.max_attempts)) [
        | inl below ↦ rw (transient, below) (again refl (ground (arith, below)))
        | inr above ↦ rw (transient, above) (exhausted refl (ground (arith, above)))
      ]
    ]

    -- A step with the policy of its own reply.
    abbrev Follows : ProcessResult × World D → Type 0
    Follows r = Policy r.0 r.1

    record_attempt-Policy :
        (error : DispatchError) (world : World D)
        → Raised event error
        → Follows (record_attempt options around job event error world)
    unfolding record_attempt
    record_attempt-Policy error world raised =
        was_failed event error (failure_outcome options event error) _
          (around.between before_transition world).rows matches raised (failure-Judged error)
          (λ h. ap (delay_of options event) h) refl refl refl

    outcome_of-Told :
        (b : Bool)
        → ((outcome_of b ≡ finished processed) × (b ≡ true))
          ⊎ ((outcome_of b ≡ already_finished) × (b ≡ false))
    outcome_of-Told true = inl (refl, refl)
    outcome_of-Told false = inr (refl, refl)

    end_attempt-Policy :
        (fail : DispatchError → World D → ProcessResult × World D) (world : World D)
        → ((error : DispatchError) → Raised event error → Follows (fail error world))
        → (r : Result DispatchError D)
        → ((error : DispatchError) → r ≡ err error → Raised event error)
        → ((after : D) → r ≡ ok after → Returned event after)
        → Follows (end_attempt options around job event fail world r)
    unfolding worker_complete_outbox_event
    end_attempt-Policy fail world fails (err error) raised returned =
        fails error (raised error refl)
    end_attempt-Policy fail world fails (ok after) raised returned = by_end around.commit_error refl
      where
        by_end :
            (e : Option DispatchError)
            → around.commit_error ≡ e
            → Follows (commit_processed options around job event e fail after world)
        by_end (some error) h = fails error (by_commit h)
        by_end none h =
            was_committed event world.rows matches (returned after refl) h refl
              (outcome_of-Told (any (is_claimed job.outbox_event_id) world.rows)) refl

    process_event-Policy :
        (world : World D) → Follows (process_event options around job event world)
    unfolding process_event
    process_event-Policy world =
        end_attempt-Policy (record_attempt options around job event) world
          (λ error. record_attempt-Policy error world) _ (λ error h. by_handler world.domain h)
          (λ after h. plain world.domain h)

    process_phased_job-Policy :
        (handler : PhasedOutboxHandler D P)
        → options.phased_handlers event.event_type ≡ some handler
        → (world : World D) → Follows (process_phased_job options around job event handler world)
    unfolding process_phased_job
    process_phased_job-Policy handler it world =
        by_prepared (handler.prepare event world.domain) refl (around.between on_network world)
      where
        by_prepared :
            (r : Result DispatchError P)
            → handler.prepare event world.domain ≡ r
            → (w : World D) → Follows (phase_c options around job event handler r w)
        by_prepared (err error) h w =
            record_attempt-Policy error _ (by_prepare handler world.domain it h)
        by_prepared (ok prepared) h w =
            end_attempt-Policy (fail_phased options around job event handler) w
              (λ error. record_attempt-Policy error _) (handler.apply event prepared w.domain)
              (λ error h'. by_apply handler prepared w.domain it h')
              (λ after h'. phased handler prepared world.domain w.domain it h h')

  Told : World D → Result WorkerError ProcessResult × World D → Type 0
  Told world (ok result, after) = Policy result after
  Told world (err e, after) = Unit {0}

  process_claimed_job-Told :
      (world : World D) → Told world (process_claimed_job options around job world)
  unfolding Told
  process_claimed_job-Told =
      process_claimed_job-cases options around job Told (λ w got. was_gone got refl refl) (λ w. tt)
        (λ w event got matches. process_event-Policy event matches _) by_result
        (λ w event handler got matches it. process_phased_job-Policy event matches handler it w)
    where
      by_result :
          (w : World D) (r : Result WorkerError ProcessResult × World D)
          → Told (around.between before_transaction w) r
          → Told w r
      by_result w (ok result, after) h = h
      by_result w (err e, after) h = h

  -- A job that was processed without an infrastructure error ends in one of three ways. Its event was
  -- not claimed any more. Or its handler returned and COMMIT did not fail: it is reported as processed
  -- where the row was still claimed, as already finished where not. Or an error of its handler or of
  -- COMMIT was met: it is failed where the error is permanent, and otherwise retried below the maximum
  -- of attempts and dead-lettered from there on. A failure completes the row with the outcome that is
  -- reported and the error's message, and a retry with the delay of its attempts.
  pub process_claimed_job-Policy :
      (world : World D) (result : ProcessResult) (after : World D)
      → process_claimed_job options around job world ≡ (ok result, after)
      → Policy result after
  unfolding Told
  process_claimed_job-Policy world result after h =
      subst (Told world) h (process_claimed_job-Told world)
