-- ===== src/Invitations/Store.antt =====
-- The tables that src/invitations reads and writes. An instant is a number of seconds; ids are texts.
-- The role of an invitation is the code of the role that its row refers to. An audit row has no id, a
-- fresh uuid.
use taller_mecario_b.Base.{ℕ, String, Bool, true, false, List, Option, Key, ◌↔◌, ◌≡◌, arith}
use taller_mecario_b.Members.Store.{Membership, MemberRole}
use taller_mecario_b.Outbox.Store.{OutboxRow}
use taller_mecario_b.Authz.Roles.{RoleCode}

pub data InvitationStatus : Type 0 where
  pending accepted expired revoked : InvitationStatus

abbrev pub status_eqb : InvitationStatus → InvitationStatus → Bool
status_eqb pending pending = true
status_eqb accepted accepted = true
status_eqb expired expired = true
status_eqb revoked revoked = true
status_eqb _ _ = false

pub status_eqb_iff : (a b : InvitationStatus) → (status_eqb a b ≡ true) ↔ (a ≡ b)
status_eqb_iff a b = ground arith

instance abbrev pub invitation_status_key : Key InvitationStatus
invitation_status_key = record { same = status_eqb; same_iff = status_eqb_iff }

-- A row of `membership_invitations`.
pub record Invitation : Type 0 where
  pub id : String
  pub tenant_id : String
  pub email : String
  pub email_normalized : String
  pub role_code : String
  pub token_hash : String
  pub status : InvitationStatus
  pub expires_at : ℕ
  pub accepted_at : Option ℕ
  pub accepted_by_user_id : Option String
  pub accepted_membership_id : Option String
  pub invited_by_membership_id : String
  pub revoked_at : Option ℕ
  pub revoked_by_membership_id : Option String
  pub created_at : ℕ

-- The lease columns of `membership_invitation_deliveries`: a CHECK has all of them NULL or none.
pub record Lease : Type 0 where
  pub id : String
  pub outbox_event_id : String
  pub attempt : ℕ
  pub acquired_at : ℕ
  pub expires_at : ℕ

-- `sent_at` and `provider_message_id`: a CHECK has both of them NULL or none.
pub record Sent : Type 0 where
  pub at : ℕ
  pub provider_message_id : String

pub record Delivery : Type 0 where
  pub tenant_id : String
  pub invitation_id : String
  pub lease : Option Lease
  pub lease_count : ℕ
  pub sent : Option Sent

pub data UserStatus : Type 0 where
  active disabled : UserStatus

pub record User : Type 0 where
  pub id : String
  pub identity_provider : String
  pub external_subject : String
  pub email : String
  pub full_name : Option String
  pub status : UserStatus

-- A row of `identity_sync_states`.
pub record IdentityState : Type 0 where
  pub identity_provider : String
  pub external_subject : String
  pub lifecycle_state : String

pub record Workshop : Type 0 where
  pub id : String
  pub display_name : String

pub data ActorType : Type 0 where
  user system : ActorType

pub data AuditOutcome : Type 0 where
  success denied : AuditOutcome

-- A value of a JSON object of an audit row.
pub data Json : Type 0 where
  text : String → Json
  instant number : ℕ → Json
  texts : List String → Json
  flag : Bool → Json
  null : Json

abbrev pub JsonObject : Type 0
JsonObject = List (String × Json)

pub record AuditRow : Type 0 where
  pub tenant_id : Option String
  pub actor_type : ActorType
  pub actor_user_id : Option String
  pub actor_membership_id : Option String
  pub action : String
  pub outcome : AuditOutcome
  pub entity_type : String
  pub entity_id : Option String
  pub reason_code : Option String
  pub before : Option JsonObject
  pub after : Option JsonObject
  pub metadata : Option JsonObject
  pub request_id : String
  pub ip_address : Option String

pub record Db : Type 0 where
  pub tenant_roles : List RoleCode
  pub workshops : List Workshop
  pub identity_states : List IdentityState
  pub users : List User
  pub invitations : List Invitation
  pub deliveries : List Delivery
  pub memberships : List Membership
  pub member_roles : List MemberRole
  pub outbox_events : List OutboxRow
  pub audit_logs : List AuditRow

-- The constraints whose names a trigger, a unique index or a lock timeout raises.
pub data Violation : Type 0 where
  mi_created_pending mi_immutable_columns mi_terminal_state mi_delivery_in_progress : Violation
  mi_expire_before_deadline mi_accept_after_deadline mi_accepted_membership_mismatch : Violation
  mi_accepted_role_missing membership_invitations_pkey mi_token_hash_key : Violation
  mi_one_pending_per_email_uq memberships_pkey memberships_tenant_user_key : Violation
  membership_roles_pk lock_not_available bootstrap_user_argument_invalid users_pkey : Violation
  mi_invited_by_fk mr_membership_not_active : Violation
  mi_token_hash_format_check mi_expiry_after_creation_check : Violation

-- `InvitationErrorCode`.
pub data InvitationErrorCode : Type 0 where
  invitation_already_pending invitation_role_not_allowed invitation_not_found : InvitationErrorCode
  invitation_invalid invitation_expired invitation_revoked : InvitationErrorCode
  invitation_already_accepted invitation_email_mismatch : InvitationErrorCode
  membership_already_exists invitation_in_progress : InvitationErrorCode

pub data InvitationError : Type 0 where
  api : InvitationErrorCode → InvitationError
  role_not_allowed user_disabled : InvitationError
  internal : String → InvitationError
  database : Violation → InvitationError
