-- ===== src/Members/Store.antt =====
-- The tables that src/memberships reads and writes, and its statements as steps on them. An instant
-- is a number; `now()` is the instant of the transaction. Ids are texts. Of an audit row the id, a
-- fresh uuid, is left out, and the entity type, which its action determines.
use taller_mecario_b.Base.{ℕ, String, Bool, true, false, List, Option, Key, ◌↔◌, ◌≡◌, arith}
use taller_mecario_b.Authz.Roles.{RoleCode}
use taller_mecario_b.Authz.Matrix.{RolePermissionRow}

pub data MembershipStatus : Type 0 where
  active suspended revoked : MembershipStatus

abbrev pub status_eqb : MembershipStatus → MembershipStatus → Bool
status_eqb active active = true
status_eqb suspended suspended = true
status_eqb revoked revoked = true
status_eqb _ _ = false

pub status_eqb_iff : (a b : MembershipStatus) → (status_eqb a b ≡ true) ↔ (a ≡ b)
status_eqb_iff a b = ground arith

instance abbrev pub status_key : Key MembershipStatus
status_key = record { same = status_eqb; same_iff = status_eqb_iff }

-- A row of `memberships`.
pub record Membership : Type 0 where
  pub id : String
  pub tenant_id : String
  pub user_id : String
  pub status : MembershipStatus
  pub joined_at : ℕ
  pub suspended_at : Option ℕ
  pub revoked_at : Option ℕ

-- A row of `membership_roles` joined to the code of its role.
pub record MemberRole : Type 0 where
  pub tenant_id : String
  pub membership_id : String
  pub role : RoleCode
  pub assigned_by : String
  pub assigned_at : ℕ

pub data MembershipCommand : Type 0 where
  suspend revoke : MembershipCommand

pub data AuditAction : Type 0 where
  role_assigned role_revoked membership_suspended membership_revoked : AuditAction

pub data AuditOutcome : Type 0 where
  success denied : AuditOutcome

-- `before_json` and `after_json`.
pub data AuditState : Type 0 where
  of_roles : List RoleCode → AuditState
  of_status : MembershipStatus → AuditState

-- `metadata_json`.
pub data AuditMetadata : Type 0 where
  of_role : RoleCode → AuditMetadata
  of_role_missing : RoleCode → List String → AuditMetadata
  of_command : MembershipCommand → AuditMetadata
  of_command_roles : MembershipCommand → List RoleCode → AuditMetadata
  of_command_missing : MembershipCommand → List RoleCode → List String → AuditMetadata

pub record RequestMeta : Type 0 where
  pub request_id : String
  pub ip_address : String

-- The ids of the request's TenantContext.
pub record Actor : Type 0 where
  pub tenant_id : String
  pub user_id : String
  pub membership_id : String

pub record AuditRow : Type 0 where
  pub actor : Actor
  pub action : AuditAction
  pub outcome : AuditOutcome
  pub entity_id : String
  pub reason_code : String
  pub before : Option AuditState
  pub after : Option AuditState
  pub metadata : AuditMetadata
  pub meta : RequestMeta

pub record Db : Type 0 where
  pub memberships : List Membership
  pub member_roles : List MemberRole
  pub role_permissions : List RolePermissionRow
  pub audit_logs : List AuditRow

-- The constraints whose names a trigger or a CHECK raises.
pub data Violation : Type 0 where
  mr_membership_not_active mr_last_active_owner m_last_active_owner : Violation
  m_status_transition m_lifecycle_history memberships_lifecycle_state_check : Violation

pub data MemberError : Type 0 where
  membership_not_found membership_not_active role_already_assigned role_not_assigned : MemberError
  last_owner_required role_assignment_not_allowed self_role_modification_forbidden : MemberError
  invalid_state_transition action_forbidden member_role_unknown status_update_failed : MemberError
  permission_denied : String → MemberError
  database_error : Violation → MemberError
