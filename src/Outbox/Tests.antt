-- ===== src/Outbox/Tests.antt =====
-- A queue of two events and a handler that counts the events of a type and fails on others.
use taller_mecario_b.Base.{
  true, ℕ, suc, ◌≤◌, min, String, false, [], ◌∷◌, none, some, Result, ok, err, any, ◌==◌,
  string_key, if◌then◌else◌, List, ◌≡◌, refl, arith,
}
use taller_mecario_b.Outbox.Store.{
  OutboxOutcome, retry, OutboxStatus, pending, processing, OutboxEvent, OutboxRow, ClaimedJob,
}
use taller_mecario_b.Outbox.Sql.{
  is_claimed, worker_complete_outbox_event, bootstrap_claim_outbox_events,
  worker_requeue_stalled_outbox_events,
}
use taller_mecario_b.Outbox.Sql.Rows.{AllProgress, recovery, run_steps, worker_complete-twice}
use taller_mecario_b.Base.{◌++◌}
use taller_mecario_b.Outbox.Publish.{
  OutboxEventInput, inserted_row, publish_outbox_event, publish_outbox_event-again,
}
use taller_mecario_b.Outbox.Worker.{
  DispatchError, WorkerError, in_transaction, finished, already_finished, ProcessResult, World,
  OutboxWorkerOptions, Surroundings, compute_retry_delay_seconds, process_claimed_job,
}
use taller_mecario_b.Outbox.Worker.Backoff.{compute_retry_delay_seconds-bounds}
use taller_mecario_b.Outbox.Worker.Jobs.{process_claimed_job-releases}
use taller_mecario_b.Outbox.Worker.Outcomes.{Policy, process_claimed_job-Policy}
use taller_mecario_b.Outbox.Worker.Atomic.{Atomic, process_claimed_job-Atomic}
use taller_mecario_b.Outbox.Worker.Reach.{start, claim, process, Reach-AllProgress}

abbrev queued : String → String → OutboxRow
queued id event_type = record {
  event = record {
    id = id;
    tenant_id = some "t1";
    aggregate_type = "order";
    aggregate_id = none;
    event_type = event_type;
    event_version = 1;
    payload = "{}";
    idempotency_key = none;
    attempts = 0;
  };
  status = pending;
  available_at = 0;
  processed_at = none;
  last_error = none;
  updated_at = 0;
}

abbrev queue : World ℕ
queue = record { rows = queued "e1" "count" ∷ queued "e2" "count" ∷ []; domain = 0 }

abbrev counting : OutboxEvent → ℕ → Result DispatchError ℕ
counting event n =
    if event.id == "e1" then ok (suc n) else err (record { message = "timeout"; permanent = false })

abbrev options : OutboxWorkerOptions ℕ (Unit {0})
options = record {
  handlers = λ event_type. if event_type == "count" then some counting else none;
  phased_handlers = λ event_type. none;
  has_phased = false;
  max_attempts = 5;
  base_delay_seconds = 30;
  max_delay_seconds = 900;
}

abbrev calm : Surroundings ℕ
calm = record { now = 10; commit_error = none; between = λ moment world. world }

abbrev job : String → ClaimedJob
job id = record { outbox_event_id = id; tenant_id = some "t1" }

abbrev claimed_row : String → OutboxRow
claimed_row id = record (queued id "count") {
  event = record (queued id "count").event { attempts = 1 };
  status = processing;
  updated_at = 10;
}

abbrev claimed_queue : World ℕ
claimed_queue = record { rows = claimed_row "e1" ∷ claimed_row "e2" ∷ []; domain = 0 }

claim_run :
    bootstrap_claim_outbox_events 5 10 queue.rows ≡ (job "e1" ∷ job "e2" ∷ [], claimed_queue.rows)
unfolding bootstrap_claim_outbox_events
claim_run = refl

abbrev failing_result : ProcessResult
failing_result = record { outbox_event_id = "e2"; outcome = finished retry; attempts = some 1 }

abbrev after_failure : World ℕ
after_failure = record claimed_queue {
  rows =
      claimed_row "e1"
      ∷ record (claimed_row "e2") {
        status = pending;
        available_at = 40;
        last_error = some "timeout";
        updated_at = 10;
      }
      ∷ [];
}

failure_run :
    process_claimed_job options calm (job "e2") claimed_queue ≡ (ok failing_result, after_failure)
unfolding process_claimed_job compute_retry_delay_seconds
failure_run = refl

abbrev success_result : ProcessResult
success_result = record {
  outbox_event_id = "e1";
  outcome = finished OutboxOutcome.processed;
  attempts = some 1;
}

abbrev after_success : World ℕ
after_success = record {
  rows =
      record (claimed_row "e1") {
        status = OutboxStatus.processed;
        processed_at = some 10;
        last_error = none;
        updated_at = 10;
      }
      ∷ claimed_row "e2"
      ∷ [];
  domain = 1;
}

success_run :
    process_claimed_job options calm (job "e1") claimed_queue ≡ (ok success_result, after_success)
unfolding process_claimed_job
success_run = refl

process_claimed_job-releases_example : any (is_claimed "e2") after_failure.rows ≡ false
process_claimed_job-releases_example =
    process_claimed_job-releases options calm (job "e2") claimed_queue failing_result after_failure
      failure_run

process_claimed_job-Policy_example : Policy options calm (job "e2") failing_result after_failure
process_claimed_job-Policy_example =
    process_claimed_job-Policy options calm (job "e2") claimed_queue failing_result after_failure
      failure_run

process_claimed_job-Atomic_example :
    Atomic options calm (job "e1") claimed_queue success_result after_success
process_claimed_job-Atomic_example =
    process_claimed_job-Atomic options calm (job "e1") claimed_queue success_result after_success
      refl success_run

-- A stall recovery between the read of the event and its handler.
abbrev recovered : Surroundings ℕ
recovered = record calm {
  between = λ moment world. elim moment [
    | in_transaction ↦ record world {
      rows = (worker_requeue_stalled_outbox_events 0 9 90 world.rows).1;
    }
    | _ ↦ world
  ];
}

abbrev overtaken : Result WorkerError ProcessResult × World ℕ
overtaken = process_claimed_job options recovered (job "e1") claimed_queue

overtaken_result : overtaken.0 ≡ ok (record success_result { outcome = already_finished })
unfolding process_claimed_job worker_requeue_stalled_outbox_events
overtaken_result = refl

overtaken_writes : overtaken.1.domain ≡ 1
unfolding process_claimed_job worker_requeue_stalled_outbox_events
overtaken_writes = refl

abbrev finished_rows : List OutboxRow
finished_rows =
    run_steps (recovery 300 9 400 ∷ [])
      (worker_complete_outbox_event "e1" OutboxOutcome.processed none 0 10 claimed_queue.rows).1

worker_complete-twice_example :
    worker_complete_outbox_event "e1" retry (some "late") 30 500 finished_rows
    ≡ (false, finished_rows)
worker_complete-twice_example =
    worker_complete-twice "e1" OutboxOutcome.processed retry none (some "late") 0 30 10 500
      (recovery 300 9 400 ∷ []) claimed_queue.rows

compute_retry_delay_seconds-bounds_example :
    (compute_retry_delay_seconds 2 30 900 ≤ 900)
    × (min 30 900 ≤ compute_retry_delay_seconds 2 30 900)
    × (compute_retry_delay_seconds 2 30 900 ≤ compute_retry_delay_seconds 6 30 900)
compute_retry_delay_seconds-bounds_example =
    compute_retry_delay_seconds-bounds 2 6 30 900 (omega arith)

abbrev worked : World ℕ
worked =
    (process_claimed_job options calm (job "e1")
      (record queue { rows = (bootstrap_claim_outbox_events 5 10 queue.rows).1 })).1

Reach-AllProgress_example : AllProgress queue.rows worked.rows
Reach-AllProgress_example =
    Reach-AllProgress options (process calm (job "e1") (claim 5 10 start) (λ m w. start))

abbrev order_created : OutboxEventInput
order_created = record {
  id = "e9";
  tenant_id = "t1";
  aggregate_type = "order";
  aggregate_id = none;
  event_type = "count";
  event_version = none;
  payload = "{}";
  idempotency_key = some "k1";
}

publication_run : publish_outbox_event order_created 7 queue.rows ≡ (
  ok (record { id = "e9"; deduplicated = false }),
  queue.rows ++ inserted_row order_created 7 ∷ [],
)
unfolding publish_outbox_event
publication_run = refl

publish_outbox_event-again_example :
    publish_outbox_event
      (record order_created { id = "e10" })
      8
      (queue.rows ++ inserted_row order_created 7 ∷ [])
    ≡ (
      ok (record { id = "e9"; deduplicated = true }),
      queue.rows ++ inserted_row order_created 7 ∷ [],
    )
publish_outbox_event-again_example =
    publish_outbox_event-again order_created (record order_created { id = "e10" }) "k1" 7 8
      queue.rows (queue.rows ++ inserted_row order_created 7 ∷ [])
      (record { id = "e9"; deduplicated = false }) refl refl refl publication_run
