-- ===== src/Members/Requests/Settled.antt =====
-- How a request ends: rolled back, refused with one audit row, or committed, one statement and one
-- audit row behind the checks of the command. The theorems on requests are by these cases.
use taller_mecario_b.Base.{
  ℕ, String, Bool, true, false, [], ◌∷◌, ◌++◌, some, all, Result, ok, err, find, ◌==◌, string_key,
  ◌≡◌, refl, arith, ◌∙◌,
}
use taller_mecario_b.Collections.{has}
use taller_mecario_b.Authz.Roles.{RoleCode, role_key}
use taller_mecario_b.Members.Store.{
  Membership, MembershipStatus, MemberRole, Db, MembershipCommand, AuditRow, success, denied,
  MemberError,
}
use taller_mecario_b.Members.Access.{is_membership, roles_of, fresh_actor_permissions}
use taller_mecario_b.Members.Access.Authority.{may_assign, missing_target_authority-nil}
use taller_mecario_b.Members.Tx.{Tx}
use taller_mecario_b.Members.Tx.Meets.{Meets, Outcome}
use taller_mecario_b.Members.Triggers.{insert_role, delete_role, update_status}
use taller_mecario_b.Members.Roles.{
  RequestContext, MemberRolesDto, manage_permission, held_roles, is_durable,
}
use taller_mecario_b.Members.Roles.Prepare.{Refused, Prepared-authorized}
use taller_mecario_b.Members.Roles.Specs.{
  Assigned, assign_member_role-Meets, Removed, remove_member_role-Meets,
}
use taller_mecario_b.Members.Lifecycle.{MembershipDto}
use taller_mecario_b.Members.Lifecycle.Specs.{StatusChanged, change_membership_status-Meets}
use taller_mecario_b.Members.Requests.{
  Request, assign, remove, change, finalize, handle, context_of, target_of, named_roles,
}

-- The one statement of a commit, on a row of the given tenant.
pub data Written (tenant_id : String) (db mid : Db) : Type 0 where
  inserted :
      (row : MemberRole)
      → row.tenant_id ≡ tenant_id
      → insert_role row db ≡ (ok 1, mid)
      → Written tenant_id db mid
  deleted :
      (id : String) (role : RoleCode)
      → delete_role tenant_id id role db ≡ (ok true, mid)
      → Written tenant_id db mid
  updated :
      (id : String) (from to : MembershipStatus) (now : ℕ) (new : Membership)
      → update_status tenant_id id from to now db ≡ (ok (some new), mid)
      → Written tenant_id db mid

-- What was checked before: another member than the actor, found in the actor's tenant, and
-- permissions that cover the roles that the request names and those that the member holds.
pub record Authority (r : Request) (db : Db) : Type 0 where
  pub target : Membership
  pub found :
      find (is_membership (context_of r).tenant.tenant_id (target_of r)) db.memberships
      ≡ some target
  pub not_self : (target_of r == (context_of r).tenant.membership_id) ≡ false
  pub managed : has manage_permission (fresh_actor_permissions db (context_of r).tenant) ≡ true
  pub authorized :
      all
        (may_assign (fresh_actor_permissions db (context_of r).tenant))
        (named_roles r ++ held_roles (roles_of db (context_of r).tenant.tenant_id target.id))
      ≡ true

pub record Commit (r : Request) (db after : Db) : Type 0 where
  pub mid : Db
  pub row : AuditRow
  pub authority : Authority r db
  pub written : Written (context_of r).tenant.tenant_id db mid
  pub audited : after ≡ record mid { audit_logs = mid.audit_logs ++ row ∷ [] }
  pub is_success : row.outcome ≡ success
  pub by_actor : row.actor ≡ (context_of r).tenant

pub data Settled (r : Request) (db after : Db) : Type 0 where
  rolled_back : after ≡ db → Settled r db after
  refused :
      (row : AuditRow)
      → after ≡ record db { audit_logs = db.audit_logs ++ row ∷ [] }
      → row.outcome ≡ denied
      → row.actor ≡ (context_of r).tenant
      → Settled r db after
  committed : Commit r db after → Settled r db after

-- A step that meets its specification settles.
finalize-Settled :
    {A : Type 0} (request : Request) (db : Db) {Q : A → Db → Type 0} (step : Tx A)
    → Meets (Refused (context_of request) db) Q step db
    → ((a : A) (after : Db) → Q a after → Commit request db after)
    → Settled request db (finalize db (step db))
finalize-Settled {A} request db {Q} step meets commit = by_result (step db) meets.at
  where
    by_durable :
        (e : MemberError) (after : Db) (durable : Bool)
        → is_durable e ≡ durable
        → Refused (context_of request) db e after
        → Settled request db (finalize {A = A} db (err e, after))
    by_durable e after true h refusal =
        let (row, same, is_denied, by) = refusal h in refused row (finalized ∙ same) is_denied by
      where
        finalized : finalize {A = A} db (err e, after) ≡ after
        finalized = ground (arith, h)
    by_durable e after false h refusal = rolled_back (ground (arith, h))

    by_result :
        (r : Result MemberError A × Db)
        → Outcome (Refused (context_of request) db) Q r
        → Settled request db (finalize {A = A} db r)
    by_result (ok a, after) q = committed (commit a after q)
    by_result (err e, after) refusal = by_durable e after (is_durable e) refl refusal

Assigned-Commit :
    (context : RequestContext) (id input : String) (db : Db) (reply : MemberRolesDto) (after : Db)
    → Assigned context id input db reply after
    → Commit (assign context id input) db after
Assigned-Commit context id input db reply after (role, mid, named, done, ran) = record {
  mid = mid;
  row = done.row;
  authority = record {
    target = done.target;
    found = done.prepared.found;
    not_self = done.prepared.not_self;
    managed = done.prepared.managed;
    authorized =
        Prepared-authorized context id input role db done.target done.roles named done.prepared;
  };
  written = inserted _ refl ran;
  audited = done.audited;
  is_success = done.is_success;
  by_actor = done.by_actor;
}

Removed-Commit :
    (context : RequestContext) (id input : String) (db : Db) (reply : MemberRolesDto) (after : Db)
    → Removed context id input db reply after
    → Commit (remove context id input) db after
Removed-Commit context id input db reply after (role, mid, named, done, ran) = record {
  mid = mid;
  row = done.row;
  authority = record {
    target = done.target;
    found = done.prepared.found;
    not_self = done.prepared.not_self;
    managed = done.prepared.managed;
    authorized =
        Prepared-authorized context id input role db done.target done.roles named done.prepared;
  };
  written = deleted _ _ ran;
  audited = done.audited;
  is_success = done.is_success;
  by_actor = done.by_actor;
}

StatusChanged-Commit :
    (context : RequestContext) (command : MembershipCommand) (id : String) (db : Db)
    (reply : MembershipDto) (after : Db)
    → StatusChanged context command id db reply after
    → Commit (change context command id) db after
StatusChanged-Commit context command id db reply after done = record {
  mid = done.mid;
  row = done.row;
  authority = record {
    target = done.target;
    found = done.found;
    not_self = done.not_self;
    managed = done.managed;
    authorized = missing_target_authority-nil _ _ done.authorized;
  };
  written = updated _ _ _ _ _ done.ran;
  audited = done.audited;
  is_success = done.is_success;
  by_actor = done.by_actor;
}

-- Every request settles.
pub settle : (r : Request) (db : Db) → Settled r db (handle r db)
unfolding handle
settle (assign context id input) db =
    finalize-Settled (assign context id input) db _ (assign_member_role-Meets context id input db)
      (Assigned-Commit context id input db)
settle (remove context id input) db =
    finalize-Settled (remove context id input) db _ (remove_member_role-Meets context id input db)
      (Removed-Commit context id input db)
settle (change context command id) db =
    finalize-Settled (change context command id) db _
      (change_membership_status-Meets context command id db)
      (StatusChanged-Commit context command id db)
