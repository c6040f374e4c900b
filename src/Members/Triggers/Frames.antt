-- ===== src/Members/Triggers/Frames.antt =====
-- What the statements leave alone: the rows of other tenants, the role catalogue and the audit log.
use taller_mecario_b.Base.{
  ℕ, String, Bool, true, false, not, List, [], ◌∷◌, ◌++◌, Option, none, some, ok, keep, find, ◌==◌,
  string_key, eq_iff, map, ◌≡◌, refl, arith,
}
use taller_mecario_b.Authz.Roles.{RoleCode, role_key}
use taller_mecario_b.Members.Store.{Membership, MemberRole, MembershipStatus, status_key, Db}
use taller_mecario_b.Members.Triggers.{
  is_role_row, insert_role, delete_role, update_status, update_row, restamp, is_target,
}

-- What a tenant's requests may see and change.
abbrev pub memberships_of : String → Db → List Membership
memberships_of t db = keep (λ m. m.tenant_id == t) db.memberships

abbrev pub member_roles_of : String → Db → List MemberRole
member_roles_of t db = keep (λ r. r.tenant_id == t) db.member_roles

-- The rows of a tenant, the catalogue and the audit log are the same in both.
pub record Apart (t : String) (db after : Db) : Type 0 where
  pub same_memberships : memberships_of t after ≡ memberships_of t db
  pub same_roles : member_roles_of t after ≡ member_roles_of t db
  pub same_catalogue : after.role_permissions ≡ db.role_permissions
  pub same_log : after.audit_logs ≡ db.audit_logs

module _ {ℓ} {A : Type ℓ} (p : A → Bool) where
  keep-append_other : (xs : List A) (x : A) → p x ≡ false → keep p (xs ++ x ∷ []) ≡ keep p xs
  keep-append_other [] x h = ground (arith, h)
  keep-append_other (y ∷ xs) x h = ground (arith, keep-append_other xs x h)

  keep-keep_other :
      (q : A → Bool) (xs : List A)
      → ((x : A) → p x ≡ true → q x ≡ false)
      → keep p (keep (λ x. not (q x)) xs) ≡ keep p xs
  keep-keep_other q [] h = refl
  keep-keep_other q (x ∷ xs) h = ground (arith, h x, keep-keep_other q xs h)

  keep-map_other :
      (f : A → A) (xs : List A)
      → ((x : A) → p (f x) ≡ p x)
      → ((x : A) → p x ≡ true → f x ≡ x)
      → keep p (map f xs) ≡ keep p xs
  keep-map_other f [] same fixed = refl
  keep-map_other f (x ∷ xs) same fixed =
      ground (arith, same x, fixed x, keep-map_other f xs same fixed)

module _ (t tenant_id : String) (other : (tenant_id == t) ≡ false) where
  pub insert_role-Apart :
      (row : MemberRole) (db : Db) {n : ℕ} {after : Db}
      → row.tenant_id ≡ tenant_id
      → insert_role row db ≡ (ok n, after)
      → Apart t db after
  unfolding insert_role
  insert_role-Apart row db mine h = record {
    same_memberships = ground arith;
    same_roles =
        ground
          (arith, keep-append_other (λ (r : MemberRole). r.tenant_id == t) db.member_roles row);
    same_catalogue = ground arith;
    same_log = ground arith;
  }

  pub delete_role-Apart :
      (id : String) (role : RoleCode) (db : Db) {deleted : Bool} {after : Db}
      → delete_role tenant_id id role db ≡ (ok deleted, after)
      → Apart t db after
  unfolding delete_role
  delete_role-Apart id role db h = record {
    same_memberships = ground arith;
    same_roles = ground (
      arith,
      keep-keep_other (λ (r : MemberRole). r.tenant_id == t) (is_role_row tenant_id id role)
          db.member_roles not_mine,
    );
    same_catalogue = ground arith;
    same_log = ground arith;
  }
    where
      not_mine :
          (r : MemberRole) → (r.tenant_id == t) ≡ true → is_role_row tenant_id id role r ≡ false
      not_mine r h = ground (arith, eq_iff r.tenant_id t, eq_iff r.tenant_id tenant_id)

  module _ (id : String) (from to : MembershipStatus) (now : ℕ) where
    restamp-tenant :
        (m : Membership)
        → ((restamp tenant_id id from to now m).tenant_id == t) ≡ (m.tenant_id == t)
    restamp-tenant m = ground arith

    restamp-other :
        (m : Membership) → (m.tenant_id == t) ≡ true → restamp tenant_id id from to now m ≡ m
    restamp-other m h = ground (arith, eq_iff m.tenant_id t, eq_iff m.tenant_id tenant_id)

    update_row-Apart :
        (db : Db) (found : Option Membership) {new : Option Membership} {after : Db}
        → update_row tenant_id id from to now db found ≡ (ok new, after)
        → Apart t db after
    update_row-Apart db none h = record {
      same_memberships = ground arith;
      same_roles = ground arith;
      same_catalogue = ground arith;
      same_log = ground arith;
    }
    update_row-Apart db (some old) h = record {
      same_memberships = ground (
        arith,
        keep-map_other (λ (m : Membership). m.tenant_id == t) (restamp tenant_id id from to now)
            db.memberships restamp-tenant restamp-other,
      );
      same_roles = ground arith;
      same_catalogue = ground arith;
      same_log = ground arith;
    }

    pub update_status-Apart :
        (db : Db) {new : Option Membership} {after : Db}
        → update_status tenant_id id from to now db ≡ (ok new, after)
        → Apart t db after
    unfolding update_status
    update_status-Apart db h =
        update_row-Apart db (find (is_target tenant_id id from) db.memberships) h
