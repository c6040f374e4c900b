-- ===== src/Outbox/Worker.antt =====
-- The worker of src/worker/outbox-worker.ts: one claimed job processed end to end. `D` is what the
-- handlers write, every table but the outbox, on which the worker has no grant; a transaction works on
-- a copy of it that COMMIT keeps. The handlers are the options of the program, so they are parameters.
pub mod Backoff
pub mod Cases
pub mod Jobs
pub mod Outcomes
pub mod Atomic
pub mod Reach
use Prim.Native.String.{◌++◌}
use taller_mecario_b.Base.{
  ℕ, ◌-◌, ◌*◌, ◌^◌, min, String, Bool, true, false, ◌&&◌, not, List, [], ◌∷◌, Option, none, some,
  Result, ok, err, Key, ◌==◌, string_key, ltb, if◌then◌else◌,
}
use taller_mecario_b.Outbox.Store.{OutboxOutcome, retry, ClaimedJob, OutboxEvent, OutboxRow}
use taller_mecario_b.Outbox.Sql.{
  worker_get_outbox_event, worker_complete_outbox_event, bootstrap_claim_outbox_events,
  worker_requeue_stalled_outbox_events,
}

-- What a handler throws: its message, and whether it is a PermanentDispatchError.
pub record DispatchError : Type 0 where
  pub message : String
  pub permanent : Bool

pub data WorkerError : Type 0 where
  outbox_claim_tenant_mismatch : WorkerError

pub data JobOutcome : Type 0 where
  finished : OutboxOutcome → JobOutcome
  already_finished : JobOutcome

pub record ProcessResult : Type 0 where
  pub outbox_event_id : String
  pub outcome : JobOutcome
  pub attempts : Option ℕ

-- 2 to the power: the delay in seconds before an attempt is made again.
unfoldable pub compute_retry_delay_seconds : ℕ → ℕ → ℕ → ℕ
compute_retry_delay_seconds attempts base_delay_seconds max_delay_seconds =
    min (base_delay_seconds * 2 ^ (attempts - 1)) max_delay_seconds

abbrev same_tenant : Option String → Option String → Bool
same_tenant none none = true
same_tenant (some a) (some b) = a == b
same_tenant _ _ = false

-- `assertClaimMatchesEvent`.
abbrev pub claim_matches_event : ClaimedJob → OutboxEvent → Bool
claim_matches_event job event =
    job.outbox_event_id == event.id && same_tenant job.tenant_id event.tenant_id

pub record World (D : Type 0) : Type 0 where
  pub rows : List OutboxRow
  pub domain : D

module _ (D P : Type 0) where
  pub record PhasedOutboxHandler : Type 0 where
    pub prepare : OutboxEvent → D → Result DispatchError P
    pub apply : OutboxEvent → P → D → Result DispatchError D
    pub record_failure : OutboxEvent → DispatchError → Bool → D → D

  pub record OutboxWorkerOptions : Type 0 where
    pub handlers : String → Option (OutboxEvent → D → Result DispatchError D)
    pub phased_handlers : String → Option PhasedOutboxHandler
    pub has_phased : Bool
    pub max_attempts : ℕ
    pub base_delay_seconds : ℕ
    pub max_delay_seconds : ℕ

-- The moments of a job at which other connections act: between the read that looks for a phased handler
-- and the transaction of a plain one; in that transaction, between the read of the event and the
-- handler, whose writes, `processed` and COMMIT are one step; while a phased handler waits on the
-- network; and between a ROLLBACK and the transition that is recorded behind it.
pub data Moment : Type 0 where
  before_transaction in_transaction on_network before_transition : Moment

-- What the surroundings do during one job: the clock, the error of a COMMIT that fails, and what other
-- connections commit at each moment.
pub record Surroundings (D : Type 0) : Type 0 where
  pub now : ℕ
  pub commit_error : Option DispatchError
  pub between : Moment → World D → World D

abbrev pub reply : ClaimedJob → JobOutcome → OutboxEvent → ProcessResult
reply job outcome event = record {
  outbox_event_id = job.outbox_event_id;
  outcome = outcome;
  attempts = some event.attempts;
}

abbrev pub gone : ClaimedJob → ProcessResult
gone job = record {
  outbox_event_id = job.outbox_event_id;
  outcome = already_finished;
  attempts = none;
}

abbrev pub outcome_of : Bool → JobOutcome
outcome_of done = if done then finished OutboxOutcome.processed else already_finished

abbrev pub no_handler : String → DispatchError
no_handler event_type = record {
  message = "no handler registered for event_type " ++ event_type;
  permanent = true;
}

module _ {D : Type 0} where
  abbrev pub succeeded : ProcessResult × World D → Result WorkerError ProcessResult × World D
  succeeded (result, after) = (ok result, after)

  abbrev pub run_handler :
      Option (OutboxEvent → D → Result DispatchError D) → OutboxEvent → D → Result DispatchError D
  run_handler none event domain = err (no_handler event.event_type)
  run_handler (some handler) event domain = handler event domain

  abbrev pub finish : ClaimedJob → OutboxOutcome → Option String → ℕ → ℕ → World D → World D
  finish job outcome error delay now world = record world {
    rows = (worker_complete_outbox_event job.outbox_event_id outcome error delay now world.rows).1;
  }

module _ {D P : Type 0} where
  -- The outcome of a failed attempt.
  abbrev pub failure_outcome : OutboxWorkerOptions D P → OutboxEvent → DispatchError → OutboxOutcome
  failure_outcome options event error =
      if not error.permanent && ltb event.attempts options.max_attempts
      then retry
      else if not error.permanent
      then OutboxOutcome.dead_letter
      else OutboxOutcome.failed

  abbrev pub delay_of : OutboxWorkerOptions D P → OutboxEvent → OutboxOutcome → ℕ
  delay_of options event retry =
      compute_retry_delay_seconds event.attempts options.base_delay_seconds
        options.max_delay_seconds
  delay_of options event _ = 0

  -- The transition of a failed attempt, its own statement behind the ROLLBACK.
  unfoldable pub record_attempt :
      OutboxWorkerOptions D P
      → Surroundings D
      → ClaimedJob
      → OutboxEvent
      → DispatchError
      → World D
      → ProcessResult × World D
  record_attempt options around job event error world =
      let outcome = failure_outcome options event error in
      (
        reply job (finished outcome) event,
        finish job outcome (some error.message) (delay_of options event outcome) around.now
            (around.between before_transition world),
      )

  -- The end of a transaction whose handler returned: `processed`, then COMMIT.
  abbrev pub commit_processed :
      OutboxWorkerOptions D P
      → Surroundings D
      → ClaimedJob
      → OutboxEvent
      → Option DispatchError
      → (DispatchError → World D → ProcessResult × World D)
      → D
      → World D
      → ProcessResult × World D
  commit_processed options around job event (some error) fail after world = fail error world
  commit_processed options around job event none fail after world =
      let (done, rows) =
        worker_complete_outbox_event job.outbox_event_id OutboxOutcome.processed none 0 around.now
          world.rows in
      (reply job (outcome_of done) event, record { rows = rows; domain = after })

  abbrev pub end_attempt :
      OutboxWorkerOptions D P
      → Surroundings D
      → ClaimedJob
      → OutboxEvent
      → (DispatchError → World D → ProcessResult × World D)
      → World D
      → Result DispatchError D
      → ProcessResult × World D
  end_attempt options around job event fail world (err error) = fail error world
  end_attempt options around job event fail world (ok after) =
      commit_processed options around job event around.commit_error fail after world

  -- `fail` of `processPhasedJob`: the evidence of the failed attempt first.
  abbrev pub fail_phased :
      OutboxWorkerOptions D P
      → Surroundings D
      → ClaimedJob
      → OutboxEvent
      → PhasedOutboxHandler D P
      → DispatchError
      → World D
      → ProcessResult × World D
  fail_phased options around job event handler error world =
      record_attempt options around job event error (record world {
        domain = handler.record_failure event error (not error.permanent) world.domain;
      })

  abbrev pub phase_c :
      OutboxWorkerOptions D P
      → Surroundings D
      → ClaimedJob
      → OutboxEvent
      → PhasedOutboxHandler D P
      → Result DispatchError P
      → World D
      → ProcessResult × World D
  phase_c options around job event handler (err error) world =
      fail_phased options around job event handler error world
  phase_c options around job event handler (ok prepared) world =
      end_attempt options around job event (fail_phased options around job event handler) world
        (handler.apply event prepared world.domain)

  -- The claim was checked by the caller, on the same event.
  unfoldable pub process_phased_job :
      OutboxWorkerOptions D P
      → Surroundings D
      → ClaimedJob
      → OutboxEvent
      → PhasedOutboxHandler D P
      → World D
      → ProcessResult × World D
  unfolding record_attempt
  process_phased_job options around job event handler world =
      phase_c options around job event handler (handler.prepare event world.domain)
        (around.between on_network world)

  -- The handler's part of the transaction of a plain job: its writes, `processed` and COMMIT.
  unfoldable pub process_event :
      OutboxWorkerOptions D P
      → Surroundings D
      → ClaimedJob
      → OutboxEvent
      → World D
      → ProcessResult × World D
  unfolding record_attempt
  process_event options around job event world =
      end_attempt options around job event (record_attempt options around job event) world
        (run_handler (options.handlers event.event_type) event world.domain)

  abbrev pub process_found :
      OutboxWorkerOptions D P
      → Surroundings D
      → ClaimedJob
      → Option OutboxEvent
      → World D
      → Result WorkerError ProcessResult × World D
  process_found options around job none world = (ok (gone job), world)
  process_found options around job (some event) world =
      if claim_matches_event job event
      then succeeded (process_event options around job event (around.between in_transaction world))
      else (err outbox_claim_tenant_mismatch, world)

  -- The transaction of a plain job.
  unfoldable pub process_plain_job :
      OutboxWorkerOptions D P
      → Surroundings D
      → ClaimedJob
      → World D
      → Result WorkerError ProcessResult × World D
  unfolding process_event worker_get_outbox_event
  process_plain_job options around job world =
      process_found options around job (worker_get_outbox_event job.outbox_event_id world.rows)
        world

  abbrev pub dispatch :
      OutboxWorkerOptions D P
      → Surroundings D
      → ClaimedJob
      → OutboxEvent
      → Option (PhasedOutboxHandler D P)
      → World D
      → Result WorkerError ProcessResult × World D
  dispatch options around job event (some handler) world =
      succeeded (process_phased_job options around job event handler world)
  dispatch options around job event none world =
      process_plain_job options around job (around.between before_transaction world)

  -- The read that looks for a phased handler.
  abbrev pub dispatch_found :
      OutboxWorkerOptions D P
      → Surroundings D
      → ClaimedJob
      → Option OutboxEvent
      → World D
      → Result WorkerError ProcessResult × World D
  dispatch_found options around job none world = (ok (gone job), world)
  dispatch_found options around job (some event) world =
      if claim_matches_event job event
      then dispatch options around job event (options.phased_handlers event.event_type) world
      else (err outbox_claim_tenant_mismatch, world)

  unfoldable pub process_claimed_job :
      OutboxWorkerOptions D P
      → Surroundings D
      → ClaimedJob
      → World D
      → Result WorkerError ProcessResult × World D
  unfolding process_phased_job process_plain_job worker_get_outbox_event
      worker_complete_outbox_event
  process_claimed_job options around job world =
      if options.has_phased
      then dispatch_found options around job
          (worker_get_outbox_event job.outbox_event_id world.rows) world
      else process_plain_job options around job world
