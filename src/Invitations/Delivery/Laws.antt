-- ===== src/Invitations/Delivery/Laws.antt =====
-- What an attempt to deliver an invitation's email asks of the provider, and when.
use taller_mecario_b.Base.{
  ◌+◌, ◌*◌, ◌≤◌, String, Bool, true, [], ◌∷◌, ◌++◌, Option, none, some, ok, find, ◌==◌, string_key,
  nat_key, ◌≡◌, ◌⊎◌,
}
use taller_mecario_b.Base.Steps.Meets.{Meets}
use taller_mecario_b.Outbox.Store.{OutboxEvent}
use taller_mecario_b.Invitations.Store.{Invitation, pending, invitation_status_key, Db}
use taller_mecario_b.Invitations.Token.{derive_token, token_matches_hash}
use taller_mecario_b.Invitations.Message.{EmailMessage}
use taller_mecario_b.Invitations.Create.{EmailPayload}
use taller_mecario_b.Invitations.Leases.{LeaseOutcome, acquired, acquire_lease}
use taller_mecario_b.Invitations.Delivery.{
  World, Worker, Attempt, lease_length, send_window, lease_safety, request_of, message_of,
  is_target,
}

-- The one request of an attempt.
pub record Requested (worker : Worker) (event : OutboxEvent) (at : Attempt) (w after : World)
    : Type 0 where
  pub payload : EmailPayload
  pub i : Invitation
  pub token : String
  pub decoded : worker.decode event.payload ≡ some payload
  pub aimed : event.aggregate_id ≡ some payload.invitation_id
  pub found : find (is_target event.tenant_id payload.invitation_id) w.db.invitations ≡ some i
  pub own : (event.aggregate_id ≡ some i.id) × (event.tenant_id ≡ some i.tenant_id)
  pub was_pending : i.status == pending ≡ true
  pub derived :
      derive_token worker.crypto worker.token_key payload.invitation_id payload.token_nonce
      ≡ ok token
  pub own_token : token_matches_hash worker.crypto token i.token_hash ≡ true
  pub prior : Bool
  pub leased :
      (acquire_lease at.leased_at event.id at.lease_id (lease_length worker) (at.meanwhile w.db)).0
      ≡ ok (record { outcome = acquired; prior_attempt_unconfirmed = prior })
  pub asked :
      after.requests
      ≡ w.requests ++ request_of worker at payload (message_of worker payload i token) ∷ []
  pub fits :
      at.ready_at + send_window worker at + lease_safety
      ≤ at.started_at + lease_length worker * 1000

module _ (worker : Worker) (event : OutboxEvent) (at : Attempt) (w : World) where
  Ends : World → Type 0
  Ends after = (after.requests ≡ w.requests) ⊎ Requested worker event at w after

  -- A message that was prepared is of the row that was read, with the token of its hash.
  abbrev IsMessage : EmailPayload → Invitation → Option EmailMessage → Type 0
  IsMessage payload i message =
      (message ≡ none)
      ⊎ ((token : String) × (derive_token worker.crypto worker.token_key payload.invitation_id
              payload.token_nonce
            ≡ ok token)
          × (token_matches_hash worker.crypto token i.token_hash ≡ true)
          × (i.status == pending ≡ true)
          × (message ≡ some (message_of worker payload i token)))

  module _ (payload : EmailPayload) (i : Invitation)
      (decoded : worker.decode event.payload ≡ some payload)
      (aimed : event.aggregate_id ≡ some payload.invitation_id)
      (found : find (is_target event.tenant_id payload.invitation_id) w.db.invitations ≡ some i)
      (db : Db) where
    Acquires : LeaseOutcome → Bool → Type 0
    Acquires outcome prior =
        acquire_lease at.leased_at event.id at.lease_id (lease_length worker) (at.meanwhile w.db)
        ≡ (ok (record { outcome = outcome; prior_attempt_unconfirmed = prior }), db)
