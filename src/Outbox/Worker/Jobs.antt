-- ===== src/Outbox/Worker/Jobs.antt =====
-- What the processing of a claimed job leaves of its row and of the others.
use taller_mecario_b.Base.{
  ℕ, String, false, List, Option, none, some, Result, ok, err, any, find, find-none, string_key,
  ◌≡◌, refl, subst,
}
use taller_mecario_b.Outbox.Store.{OutboxOutcome, OutboxEvent, OutboxRow, ClaimedJob}
use taller_mecario_b.Outbox.Sql.{
  is_claimed, event_of, worker_get_outbox_event, worker_complete_outbox_event,
}
use taller_mecario_b.Outbox.Sql.Rows.{
  AllProgress, AllProgress-same, AllProgress-trans, worker_complete-AllProgress,
  worker_complete-releases,
}
use taller_mecario_b.Outbox.Worker.{
  DispatchError, ProcessResult, WorkerError, World, PhasedOutboxHandler, OutboxWorkerOptions,
  Surroundings, Moment, before_transaction, in_transaction, on_network, before_transition,
  record_attempt, commit_processed, end_attempt, fail_phased, phase_c, process_phased_job,
  process_event, process_claimed_job,
}
use taller_mecario_b.Outbox.Worker.Cases.{process_claimed_job-cases}

module _ {D P : Type 0} (options : OutboxWorkerOptions D P) (around : Surroundings D)
    (job : ClaimedJob) where
  -- Every end of an attempt completes the row of the job, behind what the others did at each moment.
  module _ (S R : List OutboxRow → List OutboxRow → Type 0)
      (behind : (a b c : List OutboxRow) → S a b → R b c → R a c)
      (others : (m : Moment) (w : World D) → S w.rows (around.between m w).rows)
      (completes : (outcome : OutboxOutcome) (error : Option String) (delay : ℕ)
          (rows : List OutboxRow)
        → R rows
            (worker_complete_outbox_event job.outbox_event_id outcome error delay around.now
              rows).1)
      (event : OutboxEvent) where
    end_attempt-completes :
        (fail : DispatchError → World D → ProcessResult × World D) (world : World D)
        → ((error : DispatchError) → R world.rows (fail error world).1.rows)
        → (r : Result DispatchError D)
        → R world.rows (end_attempt options around job event fail world r).1.rows
    end_attempt-completes fail world failed (err error) = failed error
    end_attempt-completes fail world failed (ok after) = by_commit around.commit_error
      where
        by_commit :
            (e : Option DispatchError)
            → R world.rows (commit_processed options around job event e fail after world).1.rows
        by_commit none = completes OutboxOutcome.processed none 0 world.rows
        by_commit (some error) = failed error

    record_attempt-completes :
        (error : DispatchError) (world : World D)
        → R world.rows (record_attempt options around job event error world).1.rows
    unfolding record_attempt
    record_attempt-completes error world =
        behind _ _ _ (others before_transition world) (completes _ _ _ _)

    phase_c-completes :
        (handler : PhasedOutboxHandler D P) (r : Result DispatchError P) (world : World D)
        → R world.rows (phase_c options around job event handler r world).1.rows
    phase_c-completes handler (err error) world = record_attempt-completes error _
    phase_c-completes handler (ok prepared) world =
        end_attempt-completes (fail_phased options around job event handler) world
          (λ error. record_attempt-completes error _) _

    process_phased_job-completes :
        (handler : PhasedOutboxHandler D P) (world : World D)
        → R world.rows (process_phased_job options around job event handler world).1.rows
    unfolding process_phased_job
    process_phased_job-completes handler world =
        behind _ _ _ (others on_network world) (phase_c-completes handler _ _)

    process_event-completes :
        (world : World D)
        → R world.rows
            (process_event options around job event (around.between in_transaction world)).1.rows
    unfolding process_event
    process_event-completes world = behind _ _ _ (others in_transaction world) (
        end_attempt-completes (record_attempt options around job event) _
          (λ error. record_attempt-completes error _) _)

  not_claimed :
      (rows : List OutboxRow)
      → worker_get_outbox_event job.outbox_event_id rows ≡ none
      → any (is_claimed job.outbox_event_id) rows ≡ false
  unfolding worker_get_outbox_event
  not_claimed rows got = by_row (find (is_claimed job.outbox_event_id) rows) refl got
    where
      by_row :
          (e : Option OutboxRow)
          → find (is_claimed job.outbox_event_id) rows ≡ e
          → event_of e ≡ none
          → any (is_claimed job.outbox_event_id) rows ≡ false
      by_row none h same = find-none (is_claimed job.outbox_event_id) rows h
      by_row (some row) h same = cc

  Released : World D → Result WorkerError ProcessResult × World D → Type 0
  Released world (ok result, after) = any (is_claimed job.outbox_event_id) after.rows ≡ false
  Released world (err e, after) = Unit {0}

  Unclaimed : List OutboxRow → List OutboxRow → Type 0
  Unclaimed old new = any (is_claimed job.outbox_event_id) new ≡ false

  releases :
      (outcome : OutboxOutcome) (error : Option String) (delay : ℕ) (rows : List OutboxRow)
      → Unclaimed rows
          (worker_complete_outbox_event job.outbox_event_id outcome error delay around.now rows).1
  unfolding Unclaimed
  releases outcome error delay rows =
      worker_complete-releases job.outbox_event_id outcome error delay around.now rows

  process_claimed_job-Released :
      (world : World D) → Released world (process_claimed_job options around job world)
  unfolding Released Unclaimed
  process_claimed_job-Released =
      process_claimed_job-cases options around job Released (λ w got. not_claimed w.rows got)
        (λ w. tt)
        (λ w event got matches.
          process_event-completes (λ a b. Unit {0}) Unclaimed (λ a b c s r. r) (λ m w. tt) releases
            event w)
        by_result
        (λ w event handler got matches it.
          process_phased_job-completes (λ a b. Unit {0}) Unclaimed (λ a b c s r. r) (λ m w. tt)
            releases event handler w)
    where
      by_result :
          (w : World D) (r : Result WorkerError ProcessResult × World D)
          → Released (around.between before_transaction w) r
          → Released w r
      by_result w (ok result, after) h = h
      by_result w (err e, after) h = h

  -- A job that was processed without an infrastructure error is no longer claimed by anyone, however
  -- its handler, the COMMIT and the other connections behaved meanwhile.
  pub process_claimed_job-releases :
      (world : World D) (result : ProcessResult) (after : World D)
      → process_claimed_job options around job world ≡ (ok result, after)
      → any (is_claimed job.outbox_event_id) after.rows ≡ false
  unfolding Released
  process_claimed_job-releases world result after h =
      subst (Released world) h (process_claimed_job-Released world)

  pub process_claimed_job-AllProgress :
      ((m : Moment) (w : World D) → AllProgress w.rows (around.between m w).rows)
      → (world : World D)
      → AllProgress world.rows (process_claimed_job options around job world).1.rows
  process_claimed_job-AllProgress others =
      process_claimed_job-cases options around job (λ w r. AllProgress w.rows r.1.rows)
        (λ w got. AllProgress-same w.rows) (λ w. AllProgress-same w.rows)
        (λ w event got matches.
          process_event-completes AllProgress AllProgress (λ a b c. AllProgress-trans) others
            completes event w)
        (λ w r. AllProgress-trans (others before_transaction w))
        (λ w event handler got matches it.
          process_phased_job-completes AllProgress AllProgress (λ a b c. AllProgress-trans) others
            completes event handler w)
    where
      completes :
          (outcome : OutboxOutcome) (error : Option String) (delay : ℕ) (rows : List OutboxRow)
          → AllProgress rows
              (worker_complete_outbox_event job.outbox_event_id outcome error delay around.now
                rows).1
      completes outcome error delay rows =
          worker_complete-AllProgress job.outbox_event_id outcome error delay around.now rows
