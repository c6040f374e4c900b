-- ===== src/Invitations/Leases.antt =====
-- The delivery lease of an invitation: the three functions app.worker_acquire_invitation_email_lease,
-- app.worker_complete_invitation_email_delivery and app.worker_release_invitation_email_lease of
-- drizzle/0009_s1_04_invitation_delivery_lease.sql. `now` is the instant that clock_timestamp() reads.
pub mod Laws
use taller_mecario_b.Base.{
  ℕ, zero, suc, ◌+◌, String, Bool, true, false, ◌&&◌, ◌||◌, not, List, [], ◌∷◌, ◌++◌, Option, none,
  some, Result, ok, err, any, find, leb, ltb, ◌==◌, string_key, map, if◌then◌else◌, length,
  code_points,
}
use taller_mecario_b.Outbox.Store.{OutboxRow, OutboxStatus, processing, outbox_status_key}
use taller_mecario_b.Invitations.Store.{
  InvitationStatus, pending, accepted, expired, revoked, Invitation, Lease, Sent, Delivery, Db,
}
use taller_mecario_b.Invitations.Statements.{is_delivery_of, is_valid}

pub data LeaseOutcome : Type 0 where
  acquired already_sent busy not_claimed not_found : LeaseOutcome
  skip : InvitationStatus → LeaseOutcome

pub record LeaseReply : Type 0 where
  pub outcome : LeaseOutcome
  pub prior_attempt_unconfirmed : Bool

pub data LeaseError : Type 0 where
  invalid_lease_request invalid_delivery_result job_not_claimed delivery_lease_missing : LeaseError

-- The tenant, the invitation and the attempt of a claimed job.
pub record Job : Type 0 where
  pub tenant_id : String
  pub invitation_id : String
  pub attempt : ℕ

abbrev job_of : Option String → Option String → ℕ → Option Job
job_of (some tenant_id) (some id) attempt =
    some (record { tenant_id = tenant_id; invitation_id = id; attempt = attempt })
job_of _ _ attempt = none

abbrev is_job : String → OutboxRow → Bool
is_job event_id row =
    row.event.id == event_id
    && row.status == processing
    && row.event.event_type == "membership.invitation_email_requested"
    && row.event.aggregate_type == "membership_invitation"

abbrev job_of_row : Option OutboxRow → Option Job
job_of_row none = none
job_of_row (some row) = job_of row.event.tenant_id row.event.aggregate_id row.event.attempts

unfoldable pub claimed_job : String → Db → Option Job
claimed_job event_id db = job_of_row (find (is_job event_id) db.outbox_events)

abbrev pub is_own : Job → Invitation → Bool
is_own job i = i.tenant_id == job.tenant_id && i.id == job.invitation_id

abbrev pub has_lease : Option Delivery → Bool
has_lease none = false
has_lease (some d) = elim d.lease [ none ↦ false | some l ↦ true ]

abbrev pub lease_valid : ℕ → Option Delivery → Bool
lease_valid now none = false
lease_valid now (some d) = is_valid now d.lease

abbrev pub was_sent : Option Delivery → Bool
was_sent none = false
was_sent (some d) = elim d.sent [ none ↦ false | some s ↦ true ]

abbrev pub delivery_of : Job → Db → Option Delivery
delivery_of job db = find (is_delivery_of job.tenant_id job.invitation_id) db.deliveries

abbrev pub new_lease : String → String → Job → ℕ → ℕ → Lease
new_lease event_id lease_id job now seconds = record {
  id = lease_id;
  outbox_event_id = event_id;
  attempt = job.attempt;
  acquired_at = now;
  expires_at = now + seconds;
}

abbrev on_delivery : Job → (Delivery → Delivery) → Db → Db
on_delivery job change db = record db {
  deliveries =
      map
        (λ (d : Delivery). if is_delivery_of job.tenant_id job.invitation_id d then change d else d)
        db.deliveries;
}

-- The row of the job's invitation with a lease, the others as they are.
abbrev pub renewed : Job → Lease → Delivery → Delivery
renewed job lease d =
    if is_delivery_of job.tenant_id job.invitation_id d
    then record d { lease = some lease; lease_count = suc d.lease_count }
    else d

abbrev pub write_lease : Job → Lease → Option Delivery → Db → Db
write_lease job lease (some d) db = record db { deliveries = map (renewed job lease) db.deliveries }
write_lease job lease none db = record db {
  deliveries =
      db.deliveries
      ++ record {
        tenant_id = job.tenant_id;
        invitation_id = job.invitation_id;
        lease = some lease;
        lease_count = 1;
        sent = none;
      }
        ∷ [];
}

abbrev reply : LeaseOutcome → Bool → Result LeaseError LeaseReply
reply outcome prior = ok (record { outcome = outcome; prior_attempt_unconfirmed = prior })

-- A pending invitation that is not sent yet.
abbrev pub acquire_pending :
    ℕ
    → String
    → String
    → ℕ
    → Job
    → Invitation
    → Option Delivery
    → Db
    → Result LeaseError LeaseReply × Db
acquire_pending now event_id lease_id seconds job i d db =
    if has_lease d && lease_valid now d
    then (reply busy false, db)
    else if leb i.expires_at (now + seconds)
    then (reply (skip expired) (has_lease d), db)
    else (
      reply acquired (has_lease d),
      write_lease job (new_lease event_id lease_id job now seconds) d db,
    )

-- What each status of the invitation leads to.
abbrev pub acquire_status :
    InvitationStatus
    → ℕ
    → String
    → String
    → ℕ
    → Job
    → Invitation
    → Option Delivery
    → Db
    → Result LeaseError LeaseReply × Db
acquire_status pending now event_id lease_id seconds job i d db =
    acquire_pending now event_id lease_id seconds job i d db
acquire_status ended now event_id lease_id seconds job i d db =
    (reply (skip ended) (has_lease d), db)

abbrev pub acquire_for :
    ℕ
    → String
    → String
    → ℕ
    → Job
    → Invitation
    → Option Delivery
    → Db
    → Result LeaseError LeaseReply × Db
acquire_for now event_id lease_id seconds job i d db =
    if was_sent d
    then (reply already_sent false, db)
    else acquire_status i.status now event_id lease_id seconds job i d db

abbrev pub acquire_found :
    ℕ
    → String
    → String
    → ℕ
    → Job
    → Option Invitation
    → Option Delivery
    → Db
    → Result LeaseError LeaseReply × Db
acquire_found now event_id lease_id seconds job none d db = (reply not_found false, db)
acquire_found now event_id lease_id seconds job (some i) d db =
    acquire_for now event_id lease_id seconds job i d db

abbrev pub acquire_job :
    ℕ → String → String → ℕ → Option Job → Db → Result LeaseError LeaseReply × Db
acquire_job now event_id lease_id seconds none db = (reply not_claimed false, db)
acquire_job now event_id lease_id seconds (some job) db =
    acquire_found now event_id lease_id seconds job (find (is_own job) db.invitations)
      (delivery_of job db) db

unfoldable pub acquire_lease : ℕ → String → String → ℕ → Db → Result LeaseError LeaseReply × Db
acquire_lease now event_id lease_id seconds db =
    if ltb seconds 2 || ltb 120 seconds
    then (err invalid_lease_request, db)
    else acquire_job now event_id lease_id seconds (claimed_job event_id db) db

pub data LeaseState : Type 0 where
  held lapsed superseded : LeaseState

pub data Completion : Type 0 where
  recorded : LeaseState → Option InvitationStatus → Completion
  already_recorded : Completion

abbrev is_lease : String → Option Lease → Bool
is_lease lease_id none = false
is_lease lease_id (some lease) = lease.id == lease_id

abbrev lease_state : ℕ → String → Option Lease → LeaseState
lease_state now lease_id lease =
    if not (is_lease lease_id lease)
    then superseded
    else if is_valid now lease
    then held
    else lapsed

abbrev drop_lease : String → Delivery → Delivery
drop_lease lease_id d = if is_lease lease_id d.lease then record d { lease = none } else d

abbrev mark_sent : ℕ → String → String → Delivery → Delivery
mark_sent now lease_id message_id d = record (drop_lease lease_id d) {
  sent = some (record { at = now; provider_message_id = message_id });
}

abbrev status_of_row : Option Invitation → Option InvitationStatus
status_of_row none = none
status_of_row (some i) = some i.status

abbrev pub complete_delivery :
    ℕ → String → String → Job → Option Delivery → Db → Result LeaseError Completion × Db
complete_delivery now lease_id message_id job none db = (err delivery_lease_missing, db)
complete_delivery now lease_id message_id job (some d) db =
    if was_sent (some d) then (ok already_recorded, on_delivery job (drop_lease lease_id) db) else (
      ok (
          recorded (lease_state now lease_id d.lease)
            (status_of_row (find (is_own job) db.invitations))),
      on_delivery job (mark_sent now lease_id message_id) db,
    )

abbrev pub complete_job : ℕ → String → String → Option Job → Db → Result LeaseError Completion × Db
complete_job now lease_id message_id none db = (err job_not_claimed, db)
complete_job now lease_id message_id (some job) db =
    complete_delivery now lease_id message_id job (delivery_of job db) db

unfoldable pub complete_lease :
    ℕ → String → String → String → Db → Result LeaseError Completion × Db
complete_lease now event_id lease_id message_id db =
    if leb 1 (length (code_points message_id)) && leb (length (code_points message_id)) 128
    then complete_job now lease_id message_id (claimed_job event_id db) db
    else (err invalid_delivery_result, db)

abbrev release_unsent : String → String → Delivery → Delivery
release_unsent event_id lease_id d = elim d.sent [
  | none ↦ elim d.lease [
    | none ↦ d
    | some l ↦
        if l.id == lease_id && l.outbox_event_id == event_id then record d { lease = none } else d
  ]
  | some s ↦ d
]

abbrev pub release_job : String → String → Option Job → Db → Db
release_job event_id lease_id none db = db
release_job event_id lease_id (some job) db = on_delivery job (release_unsent event_id lease_id) db

unfoldable pub release_lease : String → String → Db → Db
release_lease event_id lease_id db = release_job event_id lease_id (claimed_job event_id db) db
