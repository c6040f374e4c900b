-- ===== src/Outbox/Worker/Atomic.antt =====
-- What a plain job keeps of its handler's writes.
use taller_mecario_b.Base.{
  Bool, true, false, Option, none, some, Result, ok, err, any, string_key, ◌≡◌, refl, ◌⊎◌, inl, inr,
  subst, arith,
}
use taller_mecario_b.Outbox.Store.{processed, OutboxOutcome, OutboxEvent, ClaimedJob}
use taller_mecario_b.Outbox.Sql.{is_claimed, worker_get_outbox_event, worker_complete_outbox_event}
use taller_mecario_b.Outbox.Worker.{
  DispatchError, finished, already_finished, ProcessResult, WorkerError, World, OutboxWorkerOptions,
  Surroundings, in_transaction, before_transition, record_attempt, commit_processed, end_attempt,
  process_event, process_plain_job, process_claimed_job, run_handler, outcome_of, failure_outcome,
}
use taller_mecario_b.Outbox.Worker.Cases.{process_plain_job-cases}

abbrev pub is_processed : OutboxOutcome → Bool
is_processed processed = true
is_processed _ = false

module _ {D P : Type 0} (options : OutboxWorkerOptions D P) (around : Surroundings D)
    (job : ClaimedJob) where
  -- The tables that the handler runs on: those of the job, after what the others did meanwhile.
  abbrev pub handled : World D → World D
  handled world = around.between in_transaction world

  abbrev is_held : World D → Bool
  is_held world = any (is_claimed job.outbox_event_id) (handled world).rows

  pub data Atomic (world : World D) (result : ProcessResult) (after : World D) : Type 0 where
    untouched :
        worker_get_outbox_event job.outbox_event_id world.rows ≡ none
        → after ≡ world
        → result.outcome ≡ already_finished
        → result.attempts ≡ none
        → Atomic world result after
    kept :
        (event : OutboxEvent)
        → worker_get_outbox_event job.outbox_event_id world.rows ≡ some event
        → run_handler (options.handlers event.event_type) event (handled world).domain
          ≡ ok after.domain
        → around.commit_error ≡ none
        → result.attempts ≡ some event.attempts
        → ((result.outcome ≡ finished processed) × (is_held world ≡ true))
          ⊎ ((result.outcome ≡ already_finished) × (is_held world ≡ false))
        → Atomic world result after
    rolled_back :
        (event : OutboxEvent) (error : DispatchError) (outcome : OutboxOutcome)
        → worker_get_outbox_event job.outbox_event_id world.rows ≡ some event
        → (run_handler (options.handlers event.event_type) event (handled world).domain ≡ err error)
          ⊎ (around.commit_error ≡ some error)
        → after.domain ≡ (around.between before_transition (handled world)).domain
        → result.outcome ≡ finished outcome
        → is_processed outcome ≡ false
        → Atomic world result after

  failure-unprocessed :
      (event : OutboxEvent) (error : DispatchError)
      → is_processed (failure_outcome options event error) ≡ false
  failure-unprocessed event error = ground arith

  outcome_of-held :
      (b : Bool)
      → ((outcome_of b ≡ finished processed) × (b ≡ true))
        ⊎ ((outcome_of b ≡ already_finished) × (b ≡ false))
  outcome_of-held true = inl (refl, refl)
  outcome_of-held false = inr (refl, refl)

  process_event-Atomic :
      (world : World D) (event : OutboxEvent)
      → worker_get_outbox_event job.outbox_event_id world.rows ≡ some event
      → Atomic world
          (process_event options around job event (handled world)).0
          (process_event options around job event (handled world)).1
  unfolding process_event record_attempt worker_complete_outbox_event
  process_event-Atomic world event got =
      by_run (run_handler (options.handlers event.event_type) event (handled world).domain) refl
    where
      Ended : ProcessResult × World D → Type 0
      Ended r = Atomic world r.0 r.1

      by_commit :
          (after : D)
          → run_handler (options.handlers event.event_type) event (handled world).domain ≡ ok after
          → (e : Option DispatchError) → around.commit_error ≡ e
          → Ended (
              commit_processed options around job event e
                (record_attempt options around job event)
                after
                (handled world))
      by_commit after ran (some error) h =
          rolled_back event error _ got (inr h) refl refl (failure-unprocessed event error)
      by_commit after ran none h = kept event got ran h refl (outcome_of-held (is_held world))

      by_run :
          (r : Result DispatchError D)
          → run_handler (options.handlers event.event_type) event (handled world).domain ≡ r
          → Ended (
              end_attempt options around job event
                (record_attempt options around job event)
                (handled world)
                r)
      by_run (err error) h =
          rolled_back event error _ got (inl h) refl refl (failure-unprocessed event error)
      by_run (ok after) h = by_commit after h around.commit_error refl

  Told : World D → Result WorkerError ProcessResult × World D → Type 0
  Told world (ok result, after) = Atomic world result after
  Told world (err e, after) = Unit {0}

  -- Without phased handlers, a job that was processed without an infrastructure error leaves what its
  -- handler made of the tables exactly where the handler returned and COMMIT did not fail: then the job is
  -- reported as processed, or as already finished where another connection had taken its row meanwhile.
  -- Otherwise the tables are as the others left them, and the job is retried, failed or dead-lettered, or
  -- was not there.
  pub process_claimed_job-Atomic :
      (world : World D) (result : ProcessResult) (after : World D)
      → options.has_phased ≡ false
      → process_claimed_job options around job world ≡ (ok result, after)
      → Atomic world result after
  unfolding process_claimed_job Told
  process_claimed_job-Atomic world result after plain h =
      let ran : process_plain_job options around job world ≡ (ok result, after) = rw plain at h in
      subst (Told world) ran (
        process_plain_job-cases options around job Told (λ w got. untouched got refl refl refl)
          (λ w. tt) (λ w event got matches. process_event-Atomic w event got) world)
