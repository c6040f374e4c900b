-- ===== src/Outbox/Worker/Reach.antt =====
-- The tables that any interleaving of workers can reach: claims, stall recoveries and processed jobs,
-- with what the others do at each moment of a job.
use taller_mecario_b.Base.{ℕ}
use taller_mecario_b.Outbox.Store.{ClaimedJob}
use taller_mecario_b.Outbox.Sql.{
  bootstrap_claim_outbox_events, worker_requeue_stalled_outbox_events,
}
use taller_mecario_b.Outbox.Sql.Rows.{
  AllProgress, AllProgress-same, AllProgress-trans, bootstrap_claim-AllProgress,
  worker_requeue-AllProgress,
}
use taller_mecario_b.Outbox.Worker.{
  World, OutboxWorkerOptions, Surroundings, Moment, process_claimed_job,
}
use taller_mecario_b.Outbox.Worker.Jobs.{process_claimed_job-AllProgress}

pub data Reach {D P : Type 0} (options : OutboxWorkerOptions D P) : World D → World D → Type 0 where
  start : {world : World D} → Reach options world world
  claim :
      {world mid : World D} (batch_size now : ℕ)
      → Reach options world mid
      → Reach options world
          (record mid { rows = (bootstrap_claim_outbox_events batch_size now mid.rows).1 })
  requeue :
      {world mid : World D} (stall_seconds batch_size now : ℕ)
      → Reach options world mid
      → Reach options world (record mid {
        rows = (worker_requeue_stalled_outbox_events stall_seconds batch_size now mid.rows).1;
      })
  process :
      {world mid : World D} (around : Surroundings D) (job : ClaimedJob)
      → Reach options world mid
      → ((m : Moment) (w : World D) → Reach options w (around.between m w))
      → Reach options world (process_claimed_job options around job mid).1

-- Whatever the workers do, in whatever order and with whatever they do at the moments of a job between
-- its steps, a processed, failed or dead-lettered event stays exactly
-- as it is; no row is added, deleted or given another event, and attempts are never counted back.
pub Reach-AllProgress :
    {D P : Type 0} (options : OutboxWorkerOptions D P) {world after : World D}
    → Reach options world after
    → AllProgress world.rows after.rows
Reach-AllProgress options {world} start = AllProgress-same world.rows
Reach-AllProgress options (claim {mid} batch_size now before) =
    AllProgress-trans (Reach-AllProgress options before)
      (bootstrap_claim-AllProgress batch_size now mid.rows)
Reach-AllProgress options (requeue {mid} stall_seconds batch_size now before) =
    AllProgress-trans (Reach-AllProgress options before)
      (worker_requeue-AllProgress stall_seconds batch_size now mid.rows)
Reach-AllProgress options (process {mid} around job before others) =
    AllProgress-trans (Reach-AllProgress options before) (
      process_claimed_job-AllProgress options around job
        (λ m w. Reach-AllProgress options (others m w)) mid)
