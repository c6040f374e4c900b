-- ===== src/Invitations/Tests.antt =====
-- A workshop with a pending invitation, its acceptance, and the delivery of its email.
use taller_mecario_b.Base.{
  ◌+◌, String, true, false, ◌&&◌, List, [], ◌∷◌, none, some, ok, is_ok, find, leb, ◌==◌, string_key,
  ◌≡◌, refl, map,
}
use taller_mecario_b.Base.Steps.{◌>>=◌, return, throw, check, query, modify, attempt}
use taller_mecario_b.Authz.Roles.{technician, owner}
use taller_mecario_b.Members.Store.{MembershipStatus}
use taller_mecario_b.Outbox.Store.{OutboxRow, processing}
use taller_mecario_b.Invitations.Store.{Invitation, pending, Db, invitation_status_key}
use taller_mecario_b.Invitations.Token.{derive_token, token_matches_hash}
use taller_mecario_b.Invitations.Message.{accepts_snapshot}
use taller_mecario_b.Invitations.Statements.{update_invitations, lifecycle}
use taller_mecario_b.Invitations.Statements.Changes.{Advanced}
use taller_mecario_b.Invitations.Statements.Keys.{is_keyed}
use taller_mecario_b.Invitations.Request.{
  RequestContext, parse_role, insert_audit, insert_audits, set_expired,
}
use taller_mecario_b.Invitations.Create.{EmailPayload}
use taller_mecario_b.Invitations.Users.{provision_user}
use taller_mecario_b.Invitations.Joining.{
  AcceptInput, AcceptResult, lock_invitation, resolve_invitation, insert_membership,
  insert_membership_role,
}
use taller_mecario_b.Invitations.Accept.{
  accept_invitation, accept_body, accepting_user, admit, expire_invitation, join,
}
use taller_mecario_b.Invitations.Accept.Laws.{accept_invitation-once}
use taller_mecario_b.Invitations.Requests.{Request, revoke, accept, handle_all}
use taller_mecario_b.Invitations.Requests.History.{handle_all-Advanced, handle_all-is_keyed}
use taller_mecario_b.Invitations.Leases.{
  acquired, Job, claimed_job, acquire_lease, has_lease, lease_valid, delivery_of, is_own,
}
use taller_mecario_b.Invitations.Leases.Laws.{acquire_lease-guards}
use taller_mecario_b.Invitations.Delivery.{
  World, Worker, Attempt, EmailRequest, prepare, read_payload, prepare_message, acquire, release,
  send_message,
}

abbrev hash : String
hash = "aaaaaaaaaaaaaaaaaaaaaaaaaaaaaaaaaaaaaaaaaaaaaaaaaaaaaaaaaaaaaaaa"

abbrev token_text : String
token_text = "AAAAAAAAAAAAAAAAAAAAAAAAAAAAAAAAAAAAAAAAAAA"

abbrev invited : Invitation
invited = record {
  id = "i1";
  tenant_id = "t1";
  email = "Ana@taller.co";
  email_normalized = "ana@taller.co";
  role_code = "technician";
  token_hash = hash;
  status = pending;
  expires_at = 1000;
  accepted_at = none;
  accepted_by_user_id = none;
  accepted_membership_id = none;
  invited_by_membership_id = "m1";
  revoked_at = none;
  revoked_by_membership_id = none;
  created_at = 5;
}

abbrev job_row : OutboxRow
job_row = record {
  event = record {
    id = "e1";
    tenant_id = some "t1";
    aggregate_type = "membership_invitation";
    aggregate_id = some "i1";
    event_type = "membership.invitation_email_requested";
    event_version = 2;
    payload = "{}";
    idempotency_key = some "i1";
    attempts = 1;
  };
  status = processing;
  available_at = 5;
  processed_at = none;
  last_error = none;
  updated_at = 5;
}

abbrev shop : Db
shop = record {
  tenant_roles = owner ∷ technician ∷ [];
  workshops = record { id = "t1"; display_name = "Taller Uno" } ∷ [];
  identity_states = [];
  users = [];
  invitations = invited ∷ [];
  deliveries = [];
  memberships =
      record {
        id = "m1";
        tenant_id = "t1";
        user_id = "u1";
        status = MembershipStatus.active;
        joined_at = 1;
        suspended_at = none;
        revoked_at = none;
      }
      ∷ [];
  member_roles = [];
  outbox_events = job_row ∷ [];
  audit_logs = [];
}

abbrev by_email : String → AcceptInput
by_email email = record {
  identity = record { identity_provider = "clerk"; external_subject = "user_2" };
  profile = record { email = email; full_name = some "Ana" };
  token_hash = hash;
  meta = record { request_id = "r1"; ip_address = "::1" };
  proposed_user_id = "u2";
  membership_id = "m2";
  now = 10;
  read_at = 10;
  written_at = 11;
  lock_times_out = false;
  commit_fails = false;
}

abbrev joined_reply : AcceptResult
joined_reply = record {
  membership_id = "m2";
  tenant_id = "t1";
  roles = technician ∷ [];
  workshop = record { id = "t1"; display_name = "Taller Uno" };
}

joins :
    accept_invitation (by_email "ana@taller.co") shop
    ≡ (ok joined_reply, (accept_invitation (by_email "ana@taller.co") shop).1)
unfolding accept_invitation accept_body accepting_user admit expire_invitation join provision_user
    lock_invitation resolve_invitation insert_membership insert_membership_role update_invitations
    lifecycle parse_role insert_audit insert_audits ◌>>=◌ return throw check query modify attempt
joins = refl

abbrev joined_shop : Db
joined_shop = (accept_invitation (by_email "ana@taller.co") shop).1

-- The reader of the workshop, who revokes what can be revoked.
abbrev reader : RequestContext
reader = record {
  tenant = record { tenant_id = "t1"; user_id = "u1"; membership_id = "m1" };
  permissions = [];
  meta = record { request_id = "r2"; ip_address = "::1" };
  now = 20;
}

abbrev between : List Request
between = revoke reader "i1" 20 21 ∷ accept (by_email "eva@taller.co") ∷ []

accept_invitation-once_example :
    is_ok (accept_invitation (by_email "ana@taller.co") (handle_all between joined_shop)).0 ≡ false
accept_invitation-once_example =
    accept_invitation-once (by_email "ana@taller.co") (by_email "ana@taller.co") shop joined_shop
      joined_reply between refl joins

abbrev stranger_shop : Db
stranger_shop = (accept_invitation (by_email "eva@taller.co") shop).1

abbrev day : List Request
day = accept (by_email "eva@taller.co") ∷ accept (by_email "ana@taller.co") ∷ between

handle_all-Advanced_example : Advanced shop.invitations (handle_all day shop).invitations
handle_all-Advanced_example = handle_all-Advanced day shop

handle_all-is_keyed_example : is_keyed (handle_all day shop).invitations ≡ true
handle_all-is_keyed_example = handle_all-is_keyed day shop refl

abbrev job : Job
job = record { tenant_id = "t1"; invitation_id = "i1"; attempt = 1 }

abbrev leased_shop : Db
leased_shop = (acquire_lease 20 "e1" "l1" 25 shop).1

claims : claimed_job "e1" shop ≡ some job
unfolding claimed_job
claims = refl

acquires :
    acquire_lease 20 "e1" "l1" 25 shop
    ≡ (ok (record { outcome = acquired; prior_attempt_unconfirmed = false }), leased_shop)
unfolding acquire_lease claimed_job
acquires = refl

still_there : find (is_own job) leased_shop.invitations ≡ some invited
unfolding acquire_lease claimed_job
still_there = refl

acquire_lease-guards_example :
    (is_ok (update_invitations 30 (λ i. i.id == "i1") set_expired leased_shop).0 ≡ false)
    × (invited.status ≡ pending)
    × (leb invited.expires_at (20 + 25) ≡ false)
    × (has_lease (delivery_of job shop) && lease_valid 20 (delivery_of job shop) ≡ false)
acquire_lease-guards_example =
    acquire_lease-guards 20 "e1" "l1" 25 job shop leased_shop false 30 (λ i. i.id == "i1")
      set_expired invited claims acquires refl still_there refl (λ i. refl)

abbrev payload : EmailPayload
payload = record {
  invitation_id = "i1";
  token_nonce = token_text;
  token_key_version = 1;
  delivery = record {
    template_version = 1;
    from = "no-reply@taller.co";
    accept_url = "https://taller.co/i";
    workshop_name = "Taller Uno";
    role_label = "Técnico";
    expires_at = "2026-01-08T00:00:00.000Z";
  };
}

abbrev worker : Worker
worker = record {
  crypto = record { sha256_hex = λ text. hash; hmac_base64url = λ secret text. token_text };
  formats = record {
    is_url = λ text. true;
    is_datetime = λ text. true;
    to_iso = λ at. "2026-01-08T00:00:00.000Z";
    day_of = λ text. "2026-01-08";
    accept_link = λ url token. url;
  };
  decode = λ text. some payload;
  is_uuid = λ text. true;
  token_key = record { version = 1; secret = [] };
  send_timeout = 10000;
  lease_seconds = none;
  send = λ request. ok "msg1";
}

abbrev at_noon : Attempt
at_noon = record {
  read_at = 20;
  started_at = 500000;
  lease_id = "l1";
  leased_at = 20;
  ready_at = 500100;
  meanwhile = λ db. db;
}

abbrev idle : World
idle = record { db = shop; requests = [] }

-- The attempt makes its request, with the whole timeout.
sends :
    map (λ (r : EmailRequest). r.timeout) (prepare worker job_row.event at_noon idle).1.requests
    ≡ 10000 ∷ []
unfolding prepare read_payload accepts_snapshot prepare_message derive_token token_matches_hash
    acquire acquire_lease claimed_job send_message release ◌>>=◌ return throw check query modify
sends = refl
