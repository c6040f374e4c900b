-- ===== src/Outbox/Sql.antt =====
-- The four functions that the worker may call on `outbox_events`: app.bootstrap_claim_outbox_events of
-- drizzle/0000_initial_schema.sql and app.worker_get_outbox_event, app.worker_complete_outbox_event,
-- app.worker_requeue_stalled_outbox_events of drizzle/0003_outbox_worker.sql. Each is one atomic step;
-- `now` is clock_timestamp() in it. A row that another transaction holds locked is skipped there;
-- steps of this model run one at a time and find none.
pub mod Rows
use Prim.Native.String.{compare}
use text.Mathlib.Text.{is_le}
use taller_mecario_b.Base.{
  ℕ, zero, suc, ◌+◌, ◌-◌, String, Bool, true, false, ◌&&◌, ◌||◌, not, List, [], ◌∷◌, Option, none,
  some, any, find, keep, ◌==◌, string_key, nat_key, leb, ltb, if◌then◌else◌, map,
}
use taller_mecario_b.Collections.{has}
use taller_mecario_b.Outbox.Store.{
  OutboxStatus, OutboxOutcome, processing, pending, outbox_status_key, ClaimedJob, OutboxEvent,
  OutboxRow, retry,
}

-- `WHERE o.id = p_id AND o.status = 'processing'`.
abbrev pub is_claimed : String → OutboxRow → Bool
is_claimed id row = row.event.id == id && row.status == processing

abbrev pub event_of : Option OutboxRow → Option OutboxEvent
event_of none = none
event_of (some row) = some row.event

unfoldable pub worker_get_outbox_event : String → List OutboxRow → Option OutboxEvent
worker_get_outbox_event id rows = event_of (find (is_claimed id) rows)

-- `CASE WHEN p_outcome = 'retry' THEN 'pending' ELSE p_outcome END`.
abbrev pub status_after : OutboxOutcome → OutboxStatus
status_after OutboxOutcome.processed = OutboxStatus.processed
status_after retry = pending
status_after OutboxOutcome.failed = OutboxStatus.failed
status_after OutboxOutcome.dead_letter = OutboxStatus.dead_letter

-- The columns that the completion sets.
abbrev pub completed : OutboxOutcome → Option String → ℕ → ℕ → OutboxRow → OutboxRow
completed OutboxOutcome.processed error delay now row = record row {
  status = OutboxStatus.processed;
  processed_at = some now;
  last_error = none;
  updated_at = now;
}
completed retry error delay now row = record row {
  status = pending;
  available_at = now + delay;
  last_error = error;
  updated_at = now;
}
completed OutboxOutcome.failed error delay now row = record row {
  status = OutboxStatus.failed;
  last_error = error;
  updated_at = now;
}
completed OutboxOutcome.dead_letter error delay now row = record row {
  status = OutboxStatus.dead_letter;
  last_error = error;
  updated_at = now;
}

-- Whether a row was updated, and the rows.
unfoldable pub worker_complete_outbox_event :
    String → OutboxOutcome → Option String → ℕ → ℕ → List OutboxRow → Bool × List OutboxRow
worker_complete_outbox_event id outcome error delay now rows = (
  any (is_claimed id) rows,
  map (λ row. if is_claimed id row then completed outcome error delay now row else row) rows,
)

-- `ORDER BY o.available_at, o.id` and `ORDER BY o.updated_at`, by the compared column and the id.
abbrev before : (OutboxRow → ℕ) → OutboxRow → OutboxRow → Bool
before column a b =
    ltb (column a) (column b) || (column a == column b && is_le (compare a.event.id b.event.id))

insert_by : (OutboxRow → ℕ) → OutboxRow → List OutboxRow → List OutboxRow
insert_by column row [] = row ∷ []
insert_by column row (r ∷ rows) =
    if before column row r then row ∷ r ∷ rows else r ∷ insert_by column row rows

order_by : (OutboxRow → ℕ) → List OutboxRow → List OutboxRow
order_by column [] = []
order_by column (row ∷ rows) = insert_by column row (order_by column rows)

-- `LIMIT`.
limit : ℕ → List OutboxRow → List OutboxRow
limit n [] = []
limit zero (row ∷ rows) = []
limit (suc n) (row ∷ rows) = row ∷ limit n rows

abbrev pub ids_of : List OutboxRow → List String
ids_of = map (λ (row : OutboxRow). row.event.id)

abbrev pub job_of : OutboxRow → ClaimedJob
job_of row = record { outbox_event_id = row.event.id; tenant_id = row.event.tenant_id }

-- Update the selected rows: the jobs, and the rows.
abbrev pub update_selected :
    (OutboxRow → Bool)
    → (OutboxRow → OutboxRow)
    → List String
    → List OutboxRow
    → List ClaimedJob × List OutboxRow
update_selected selected change ids rows = (
  map job_of (keep (λ row. selected row && has row.event.id ids) rows),
  map (λ row. if selected row && has row.event.id ids then change row else row) rows,
)

abbrev pub is_claimable : ℕ → OutboxRow → Bool
is_claimable now row = row.status == pending && leb row.available_at now

abbrev pub claimed : ℕ → OutboxRow → OutboxRow
claimed now row = record row {
  status = processing;
  event = record row.event { attempts = suc row.event.attempts };
  updated_at = now;
}

unfoldable pub bootstrap_claim_outbox_events :
    ℕ → ℕ → List OutboxRow → List ClaimedJob × List OutboxRow
unfolding limit order_by insert_by
bootstrap_claim_outbox_events batch_size now rows =
    update_selected (is_claimable now) (claimed now)
      (ids_of
        (limit batch_size (order_by (λ row. row.available_at) (keep (is_claimable now) rows))))
      rows

-- `o.updated_at < clock_timestamp() - make_interval(…)`.
abbrev pub is_stalled : ℕ → ℕ → OutboxRow → Bool
is_stalled stall_seconds now row =
    row.status == processing && ltb (row.updated_at + stall_seconds) now

abbrev or_else : Option String → String → Option String
or_else none text = some text
or_else (some old) text = some old

abbrev pub requeued : ℕ → OutboxRow → OutboxRow
requeued now row = record row {
  status = pending;
  last_error = or_else row.last_error "requeued after worker stall";
  updated_at = now;
}

unfoldable pub worker_requeue_stalled_outbox_events :
    ℕ → ℕ → ℕ → List OutboxRow → List ClaimedJob × List OutboxRow
unfolding limit order_by insert_by
worker_requeue_stalled_outbox_events stall_seconds batch_size now rows =
    update_selected (is_stalled stall_seconds now) (requeued now)
      (ids_of (
        limit batch_size
          (order_by (λ row. row.updated_at) (keep (is_stalled stall_seconds now) rows))))
      rows
