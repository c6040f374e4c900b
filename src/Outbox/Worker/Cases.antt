-- ===== src/Outbox/Worker/Cases.antt =====
-- The ways in which the processing of a claimed job ends, as one induction principle.
use taller_mecario_b.Base.{
  Bool, true, false, Option, none, some, Result, ok, err, ◌≡◌, refl, Bool-cases, inl, inr,
  if◌then◌else◌,
}
use taller_mecario_b.Outbox.Store.{OutboxEvent, ClaimedJob}
use taller_mecario_b.Outbox.Sql.{worker_get_outbox_event}
use taller_mecario_b.Outbox.Worker.{
  ProcessResult, WorkerError, outbox_claim_tenant_mismatch, World, PhasedOutboxHandler,
  OutboxWorkerOptions, Surroundings, before_transaction, in_transaction, claim_matches_event,
  process_phased_job, process_event, gone, succeeded, process_found, process_plain_job, dispatch,
  dispatch_found, process_claimed_job,
}

module _ {D P : Type 0} (options : OutboxWorkerOptions D P) (around : Surroundings D)
    (job : ClaimedJob) (F : World D → Result WorkerError ProcessResult × World D → Type 0)
    (absent : (w : World D)
      → worker_get_outbox_event job.outbox_event_id w.rows ≡ none
      → F w (ok (gone job), w))
    (refused : (w : World D) → F w (err outbox_claim_tenant_mismatch, w))
    (plain : (w : World D) (event : OutboxEvent)
      → worker_get_outbox_event job.outbox_event_id w.rows ≡ some event
      → claim_matches_event job event ≡ true
      → F w (
          succeeded
            (process_event options around job event (around.between in_transaction w)))) where
  pub process_plain_job-cases : (w : World D) → F w (process_plain_job options around job w)
  unfolding process_plain_job
  process_plain_job-cases w = by_found (worker_get_outbox_event job.outbox_event_id w.rows) refl
    where
      by_found :
          (found : Option OutboxEvent)
          → worker_get_outbox_event job.outbox_event_id w.rows ≡ found
          → F w (process_found options around job found w)
      by_found none got = absent w got
      by_found (some event) got = elim (Bool-cases (claim_matches_event job event)) [
        | inl matches ↦ rw matches (plain w event got matches)
        | inr other ↦ rw other (refused w)
      ]

  module _
      (later : (w : World D) (r : Result WorkerError ProcessResult × World D)
        → F (around.between before_transaction w) r
        → F w r)
      (phased : (w : World D) (event : OutboxEvent) (handler : PhasedOutboxHandler D P)
        → worker_get_outbox_event job.outbox_event_id w.rows ≡ some event
        → claim_matches_event job event ≡ true
        → options.phased_handlers event.event_type ≡ some handler
        → F w (succeeded (process_phased_job options around job event handler w))) where
    pub process_claimed_job-cases : (w : World D) → F w (process_claimed_job options around job w)
    unfolding process_claimed_job
    process_claimed_job-cases w = by_options options.has_phased
      where
        by_handler :
            (event : OutboxEvent) (handler : Option (PhasedOutboxHandler D P))
            → worker_get_outbox_event job.outbox_event_id w.rows ≡ some event
            → claim_matches_event job event ≡ true
            → options.phased_handlers event.event_type ≡ handler
            → F w (dispatch options around job event handler w)
        by_handler event (some handler) got matches it = phased w event handler got matches it
        by_handler event none got matches it = later w _ (process_plain_job-cases _)

        by_found :
            (found : Option OutboxEvent)
            → worker_get_outbox_event job.outbox_event_id w.rows ≡ found
            → F w (dispatch_found options around job found w)
        by_found none got = absent w got
        by_found (some event) got = elim (Bool-cases (claim_matches_event job event)) [
          | inl matches ↦
              rw matches
                (by_handler event (options.phased_handlers event.event_type) got matches refl)
          | inr other ↦ rw other (refused w)
        ]

        by_options :
            (b : Bool)
            → F w (
                if b
                then dispatch_found options around job
                    (worker_get_outbox_event job.outbox_event_id w.rows)
                    w
                else process_plain_job options around job w)
        by_options true = by_found (worker_get_outbox_event job.outbox_event_id w.rows) refl
        by_options false = process_plain_job-cases w
