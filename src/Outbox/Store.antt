-- ===== src/Outbox/Store.antt =====
-- The rows of `outbox_events` and the types of src/worker/outbox-worker.ts. An instant is a number of
-- seconds; ids and payloads are texts.
use taller_mecario_b.Base.{ℕ, String, Bool, true, false, Option, Key, ◌↔◌, ◌≡◌, arith}

pub data OutboxStatus : Type 0 where
  pending processing processed failed dead_letter : OutboxStatus

abbrev pub status_eqb : OutboxStatus → OutboxStatus → Bool
status_eqb pending pending = true
status_eqb processing processing = true
status_eqb processed processed = true
status_eqb failed failed = true
status_eqb dead_letter dead_letter = true
status_eqb _ _ = false

pub status_eqb_iff : (a b : OutboxStatus) → (status_eqb a b ≡ true) ↔ (a ≡ b)
status_eqb_iff a b = ground arith

instance abbrev pub outbox_status_key : Key OutboxStatus
outbox_status_key = record { same = status_eqb; same_iff = status_eqb_iff }

pub data OutboxOutcome : Type 0 where
  processed retry failed dead_letter : OutboxOutcome

pub record ClaimedJob : Type 0 where
  pub outbox_event_id : String
  pub tenant_id : Option String

pub record OutboxEvent : Type 0 where
  pub id : String
  pub tenant_id : Option String
  pub aggregate_type : String
  pub aggregate_id : Option String
  pub event_type : String
  pub event_version : ℕ
  pub payload : String
  pub idempotency_key : Option String
  pub attempts : ℕ

pub record OutboxRow : Type 0 where
  pub event : OutboxEvent
  pub status : OutboxStatus
  pub available_at : ℕ
  pub processed_at : Option ℕ
  pub last_error : Option String
  pub updated_at : ℕ
