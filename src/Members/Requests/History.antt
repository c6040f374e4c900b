-- ===== src/Members/Requests/History.antt =====
-- What histories of requests do to the owners of a tenant, to the memberships and to other tenants.
use taller_mecario_b.Base.{
  String, true, false, List, [], ◌∷◌, ◌==◌, string_key, ◌≡◌, refl, sym, subst,
}
use taller_mecario_b.Members.Store.{Db, AuditRow}
use taller_mecario_b.Members.Triggers.{exists_active_owner}
use taller_mecario_b.Members.Triggers.Owners.{
  insert_role-keeps_owner, delete_role-keeps_owner, update_status-keeps_owner,
}
use taller_mecario_b.Members.Triggers.Frames.{
  memberships_of, member_roles_of, Apart, insert_role-Apart, delete_role-Apart, update_status-Apart,
}
use taller_mecario_b.Members.Triggers.Ages.{
  AllAged, AllAged-same, AllAged-trans, insert_role-memberships, delete_role-memberships,
  update_status-AllAged,
}
use taller_mecario_b.Members.Requests.{Request, handle, handle_all, context_of}
use taller_mecario_b.Members.Requests.Settled.{
  Written, inserted, deleted, updated, Settled, rolled_back, refused, committed, settle,
}

-- A fact of the tables that the audit log does not matter to holds at the end of a request when each
-- statement gives it.
module _ (P : Db → Type 0)
    (logged : (db : Db) (rows : List AuditRow) → P db → P (record db { audit_logs = rows })) where
  settled :
      {r : Request} {db after : Db}
      → ((mid : Db) → Written (context_of r).tenant.tenant_id db mid → P mid)
      → P db
      → Settled r db after
      → P after
  settled statement start (rolled_back same) = subst P (sym same) start
  settled statement start (refused row same is_denied by) = subst P (sym same) (logged _ _ start)
  settled statement start (committed commit) =
      subst P (sym commit.audited) (logged _ _ (statement commit.mid commit.written))

Written-keeps_owner :
    (t : String) {tenant_id : String} {db mid : Db}
    → Written tenant_id db mid
    → exists_active_owner t db ≡ true
    → exists_active_owner t mid ≡ true
Written-keeps_owner t {db = db} (inserted row mine ran) e = insert_role-keeps_owner t row db ran e
Written-keeps_owner t {db = db} (deleted id role ran) e =
    delete_role-keeps_owner t _ id role db ran e
Written-keeps_owner t {db = db} (updated id from to now new ran) e =
    update_status-keeps_owner t _ id from to now db ran e

handle-keeps_owner :
    (t : String) (r : Request) (db : Db)
    → exists_active_owner t db ≡ true
    → exists_active_owner t (handle r db) ≡ true
handle-keeps_owner t r db e =
    settled (λ d. exists_active_owner t d ≡ true) (λ d rows h. h)
      (λ mid written. Written-keeps_owner t written e) e (settle r db)

-- However members are given and deprived of roles, suspended and revoked, a tenant that has an active
-- owner before a sequence of requests has one after it.
pub handle_all-keeps_owner :
    (t : String) (rs : List Request) (db : Db)
    → exists_active_owner t db ≡ true
    → exists_active_owner t (handle_all rs db) ≡ true
unfolding handle_all
handle_all-keeps_owner t [] db e = e
handle_all-keeps_owner t (r ∷ rs) db e =
    handle_all-keeps_owner t rs (handle r db) (handle-keeps_owner t r db e)

Written-AllAged :
    {tenant_id : String} {db mid : Db}
    → Written tenant_id db mid
    → AllAged db.memberships mid.memberships
Written-AllAged {db = db} (inserted row mine ran) =
    subst (AllAged db.memberships) (sym (insert_role-memberships row db ran)) (AllAged-same _)
Written-AllAged {db = db} (deleted id role ran) =
    subst (AllAged db.memberships) (sym (delete_role-memberships _ id role db ran)) (AllAged-same _)
Written-AllAged {db = db} (updated id from to now new ran) =
    update_status-AllAged _ id from to now db ran

-- A sequence of requests neither adds nor deletes memberships; each keeps its id, tenant, user and
-- join instant, is otherwise the same or of a later status in the order active, suspended, revoked, so
-- that a revoked one stays as it is, and has instants that agree with its status if it had before.
pub handle_all-AllAged :
    (rs : List Request) (db : Db) → AllAged db.memberships (handle_all rs db).memberships
unfolding handle_all
handle_all-AllAged [] db = AllAged-same db.memberships
handle_all-AllAged (r ∷ rs) db =
    AllAged-trans
      (settled (λ d. AllAged db.memberships d.memberships) (λ d rows h. h)
        (λ mid written. Written-AllAged written) (AllAged-same db.memberships) (settle r db))
      (handle_all-AllAged rs (handle r db))

Written-Apart :
    (t : String) {tenant_id : String} {db mid : Db}
    → (tenant_id == t) ≡ false
    → Written tenant_id db mid
    → Apart t db mid
Written-Apart t {db = db} other (inserted row mine ran) =
    insert_role-Apart t _ other row db mine ran
Written-Apart t {db = db} other (deleted id role ran) = delete_role-Apart t _ other id role db ran
Written-Apart t {db = db} other (updated id from to now new ran) =
    update_status-Apart t _ other id from to now db ran

-- A request of one tenant leaves the memberships and the roles of every other tenant as they were.
pub handle-apart :
    (t : String) (r : Request) (db : Db)
    → ((context_of r).tenant.tenant_id == t) ≡ false
    → (memberships_of t (handle r db) ≡ memberships_of t db)
      × (member_roles_of t (handle r db) ≡ member_roles_of t db)
handle-apart t r db other =
    settled
      (λ d.
        (memberships_of t d ≡ memberships_of t db) × (member_roles_of t d ≡ member_roles_of t db))
      (λ d rows h. h)
      (λ mid written.
        let apart = Written-Apart t other written in (apart.same_memberships, apart.same_roles))
      (refl, refl) (settle r db)
