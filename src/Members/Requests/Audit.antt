-- ===== src/Members/Requests/Audit.antt =====
-- What one request leaves in the audit log, and what it needs to change anything.
use taller_mecario_b.Base.{
  String, true, false, List, [], ◌∷◌, ◌++◌, all, any, find, ok, Option, none, some, ◌==◌,
  string_key, ◌≡◌, refl, sym, ◌∙◌, ap, arith, ◌⊎◌, inl, inr,
}
use taller_mecario_b.Collections.{has}
use taller_mecario_b.Authz.Roles.{RoleCode, role_key}
use taller_mecario_b.Authz.Matrix.{list_role_permission_rows}
use taller_mecario_b.Authz.Matrix.Laws.{may_administer}
use taller_mecario_b.Members.Store.{Membership, MemberRole, Db, AuditRow, success, denied}
use taller_mecario_b.Members.Access.{is_membership, roles_of, fresh_actor_permissions}
use taller_mecario_b.Members.Access.Authority.{
  may_assign, rows_of_actor, fresh_actor_permissions-administers,
}
use taller_mecario_b.Members.Triggers.{
  insert_role, delete_role, update_status, update_row, is_target,
}
use taller_mecario_b.Members.Roles.{manage_permission, held_roles}
use taller_mecario_b.Members.Requests.{Request, handle, context_of, target_of, named_roles}
use taller_mecario_b.Members.Requests.Settled.{
  Written, inserted, deleted, updated, Settled, rolled_back, refused, committed, settle,
}

-- The tables other than the audit log are the same.
abbrev pub Untouched : Db → Db → Type 0
Untouched db after = after ≡ record db { audit_logs = after.audit_logs }

Written-log :
    {tenant_id : String} {db mid : Db} → Written tenant_id db mid → mid.audit_logs ≡ db.audit_logs
unfolding insert_role delete_role update_status
Written-log (inserted row mine ran) = ground arith
Written-log (deleted id role ran) = ground arith
Written-log {tenant_id} {db} (updated id from to now new ran) =
    by_row (find (is_target tenant_id id from) db.memberships) ran
  where
    by_row :
        (found : Option Membership) {mid : Db}
        → update_row tenant_id id from to now db found ≡ (ok (some new), mid)
        → mid.audit_logs ≡ db.audit_logs
    by_row none h = ground arith
    by_row (some old) h = ground arith

-- A request either leaves everything as it was, or appends exactly one audit row, of its actor: a
-- denied one where it changes nothing else, a success where it changes roles or a membership.
pub handle-audited :
    (r : Request) (db : Db)
    → (handle r db ≡ db)
      ⊎ ((row : AuditRow) × ((handle r db).audit_logs ≡ db.audit_logs ++ row ∷ [])
          × (row.actor ≡ (context_of r).tenant)
          × ((row.outcome ≡ success) ⊎ ((row.outcome ≡ denied) × Untouched db (handle r db))))
handle-audited r db = by_end (settle r db)
  where
    by_end :
        {after : Db}
        → Settled r db after
        → (after ≡ db)
          ⊎ ((row : AuditRow) × (after.audit_logs ≡ db.audit_logs ++ row ∷ [])
              × (row.actor ≡ (context_of r).tenant)
              × ((row.outcome ≡ success) ⊎ ((row.outcome ≡ denied) × Untouched db after)))
    by_end (rolled_back same) = inl same
    by_end (refused row same is_denied by) = inr (
      row,
      ap (λ (d : Db). d.audit_logs) same,
      by,
      inr (
        is_denied,
        same
            ∙ ap (λ rows. record db { audit_logs = rows })
                (sym (ap (λ (d : Db). d.audit_logs) same)),
      ),
    )
    by_end (committed commit) = inr (
      commit.row,
      ap (λ (d : Db). d.audit_logs) commit.audited
          ∙ ap (λ rows. rows ++ commit.row ∷ []) (Written-log commit.written),
      commit.by_actor,
      inl commit.is_success,
    )

-- A request that changes roles or a membership is of an actor other than the target that holds the
-- management permission and the permission to assign each role that the request names or the target
-- holds, as the tables say at that moment.
pub handle-authorized :
    (r : Request) (db : Db)
    → Untouched db (handle r db)
      ⊎ ((target : Membership) × (find
              (is_membership (context_of r).tenant.tenant_id (target_of r))
              db.memberships
            ≡ some target)
          × ((target_of r == (context_of r).tenant.membership_id) ≡ false)
          × (has manage_permission (fresh_actor_permissions db (context_of r).tenant) ≡ true)
          × (all (may_assign (fresh_actor_permissions db (context_of r).tenant)) (
                named_roles r ++ held_roles (roles_of db (context_of r).tenant.tenant_id target.id))
              ≡ true))
handle-authorized r db = by_end (settle r db)
  where
    Needs : Type 0
    Needs =
        (target : Membership) × (find (is_membership (context_of r).tenant.tenant_id (target_of r))
            db.memberships
          ≡ some target)
        × ((target_of r == (context_of r).tenant.membership_id) ≡ false)
        × (has manage_permission (fresh_actor_permissions db (context_of r).tenant) ≡ true)
        × (all (may_assign (fresh_actor_permissions db (context_of r).tenant))
              (named_roles r ++ held_roles (roles_of db (context_of r).tenant.tenant_id target.id))
            ≡ true)

    by_end : {after : Db} → Settled r db after → Untouched db after ⊎ Needs
    by_end (rolled_back same) = inl (
        same
        ∙ ap (λ rows. record db { audit_logs = rows }) (sym (ap (λ (d : Db). d.audit_logs) same)))
    by_end (refused row same is_denied by) = inl (
        same
        ∙ ap (λ rows. record db { audit_logs = rows }) (sym (ap (λ (d : Db). d.audit_logs) same)))
    by_end (committed commit) =
        let rights = commit.authority in
        inr (rights.target, rights.found, rights.not_self, rights.managed, rights.authorized)

module _ (r : Request) (db : Db) (seeded : db.role_permissions ≡ list_role_permission_rows) where
  administered :
      (roles : List RoleCode)
      → all (may_assign (fresh_actor_permissions db (context_of r).tenant)) roles ≡ true
      → all
          (λ role.
            any
              (λ (held : MemberRole). may_administer held.role role)
              (rows_of_actor db (context_of r).tenant))
          roles
        ≡ true
  administered [] h = refl
  administered (role ∷ roles) h = ground (
    arith,
    fresh_actor_permissions-administers db (context_of r).tenant role seeded,
    administered roles,
  )

  -- With the seeded role permissions, a request that changes roles or a membership is of an actor who
  -- holds, for each role that the request names or the target holds, a role that administers it:
  -- owners every role, administrators the advisors and technicians, and nobody else any.
  pub handle-hierarchy :
      Untouched db (handle r db)
      ⊎ ((target : Membership) × (find
              (is_membership (context_of r).tenant.tenant_id (target_of r))
              db.memberships
            ≡ some target)
          × (all
                (λ role.
                  any
                    (λ (held : MemberRole). may_administer held.role role)
                    (rows_of_actor db (context_of r).tenant))
                (named_roles r
                  ++ held_roles (roles_of db (context_of r).tenant.tenant_id target.id))
              ≡ true))
  handle-hierarchy = elim (handle-authorized r db) [
    | inl same ↦ inl same
    | inr (target, found, not_self, managed, rights) ↦ inr (target, found, administered _ rights)
  ]
