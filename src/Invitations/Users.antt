-- ===== src/Invitations/Users.antt =====
-- app.bootstrap_provision_user of drizzle/0007_s1_03_clerk_identity_lifecycle.sql, the local user of a
-- verified identity. Only the fields of its audit row that it sets are kept.
use taller_mecario_b.Base.{
  ℕ, String, Bool, true, ◌&&◌, ◌||◌, not, [], ◌∷◌, ◌++◌, Option, none, some, Result, ok, err, any,
  find, leb, length, code_points, ◌==◌, string_key, nat_key, if◌then◌else◌,
}
use taller_mecario_b.Invitations.Store.{
  User, UserStatus, active, disabled, IdentityState, user, success, text, AuditRow, Db, Violation,
  bootstrap_user_argument_invalid, users_pkey,
}

pub record Identity : Type 0 where
  pub identity_provider : String
  pub external_subject : String

-- `VerifiedProfileInput`: a verified primary email in its canonical form.
pub record Profile : Type 0 where
  pub email : String
  pub full_name : Option String

pub record Provisioned : Type 0 where
  pub user_id : Option String
  pub status : UserStatus

abbrev pub is_user_of : Identity → User → Bool
is_user_of identity u =
    u.identity_provider == identity.identity_provider
    && u.external_subject == identity.external_subject

-- The lifecycle states that disable an identity.
abbrev pub is_barred : Identity → IdentityState → Bool
is_barred identity s =
    (s.identity_provider == identity.identity_provider
      && s.external_subject == identity.external_subject)
    && (s.lifecycle_state == "blocked" || s.lifecycle_state == "deleted")

abbrev has_text : ℕ → String → Bool
has_text high value = leb 1 (length (code_points value)) && leb (length (code_points value)) high

abbrev short_name : Option String → Bool
short_name none = true
short_name (some value) = leb (length (code_points value)) 200

abbrev pub valid_arguments : Identity → Profile → String → Bool
valid_arguments identity profile request_id =
    identity.identity_provider == "clerk"
    && has_text 255 identity.external_subject
    && has_text 320 profile.email
    && any (λ c. c == 64) (code_points profile.email)
    && short_name profile.full_name
    && has_text 128 request_id

abbrev pub id_of : Option User → Option String
id_of none = none
id_of (some u) = some u.id

abbrev pub new_user : Identity → Profile → String → User
new_user identity profile id = record {
  id = id;
  identity_provider = identity.identity_provider;
  external_subject = identity.external_subject;
  email = profile.email;
  full_name = profile.full_name;
  status = active;
}

abbrev pub provisioned_audit : Identity → String → String → AuditRow
provisioned_audit identity id request_id = record {
  tenant_id = none;
  actor_type = user;
  actor_user_id = some id;
  actor_membership_id = none;
  action = "identity.user_provisioned_jit";
  outcome = success;
  entity_type = "user";
  entity_id = some id;
  reason_code = none;
  before = none;
  after = none;
  metadata = some (("identity_provider", text identity.identity_provider) ∷ []);
  request_id = request_id;
  ip_address = none;
}

-- The user of the identity, or a new one.
abbrev pub provision_for :
    Identity → Profile → String → String → Option User → Db → Result Violation Provisioned × Db
provision_for identity profile proposed request_id (some u) db =
    (ok (record { user_id = some u.id; status = u.status }), db)
provision_for identity profile proposed request_id none db =
    if any (λ (u : User). u.id == proposed) db.users then (err users_pkey, db) else (
      ok (record { user_id = some proposed; status = active }),
      record db {
        users = db.users ++ new_user identity profile proposed ∷ [];
        audit_logs = db.audit_logs ++ provisioned_audit identity proposed request_id ∷ [];
      },
    )

unfoldable pub provision_user :
    Identity → Profile → String → String → Db → Result Violation Provisioned × Db
provision_user identity profile proposed request_id db =
    if not (valid_arguments identity profile request_id)
    then (err bootstrap_user_argument_invalid, db)
    else let own = find (is_user_of identity) db.users in
      if any (is_barred identity) db.identity_states
      then (ok (record { user_id = id_of own; status = disabled }), db)
      else provision_for identity profile proposed request_id own db
