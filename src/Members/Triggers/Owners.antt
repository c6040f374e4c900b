-- ===== src/Members/Triggers/Owners.antt =====
-- The triggers keep an active owner: a statement that is not refused leaves every tenant that had an
-- active owner with one.
use taller_mecario_b.Base.{
  ℕ, String, Bool, true, false, not, ◌&&◌, List, [], ◌∷◌, Option, none, some, ok, any, keep, find,
  ◌==◌, string_key, ==_refl, eq_iff, map, ◌≡◌, ◌⊎◌, refl, arith, any-append,
}
use taller_mecario_b.Authz.Roles.{RoleCode, owner, role_key}
use taller_mecario_b.Members.Store.{
  Membership, MemberRole, MembershipStatus, active, status_key, status_eqb_iff, Db,
}
use taller_mecario_b.Members.Access.{is_membership, is_role_of, is_active_owner}
use taller_mecario_b.Members.Triggers.{
  is_role_row, exists_active_owner, insert_role, delete_role, update_status, update_row, restamp,
  is_target,
}

module _ {ℓ} {A : Type ℓ} (p q : A → Bool) where
  -- Dropping elements that fail the test changes nothing for it.
  pub any-keep_other :
      (xs : List A)
      → ((x : A) → p x ≡ true → q x ≡ false)
      → any p (keep (λ x. not (q x)) xs) ≡ any p xs
  any-keep_other [] h = refl
  any-keep_other (x ∷ xs) h = ground (arith, h x, any-keep_other xs h)

  pub any-keep_none : (xs : List A) → any q xs ≡ false → any p (keep (λ x. not (q x)) xs) ≡ any p xs
  any-keep_none [] h = refl
  any-keep_none (x ∷ xs) h = ground (arith, any-keep_none xs)

  pub any-imp :
      (xs : List A) → ((x : A) → p x ≡ true → q x ≡ true) → any p xs ≡ true → any q xs ≡ true
  any-imp [] h e = cc
  any-imp (x ∷ xs) h e = ground (arith, h x, any-imp xs h)

pub insert_role-keeps_owner :
    (t : String) (row : MemberRole) (db : Db) {n : ℕ} {after : Db}
    → insert_role row db ≡ (ok n, after)
    → exists_active_owner t db ≡ true
    → exists_active_owner t after ≡ true
unfolding insert_role
insert_role-keeps_owner t row db h e =
    ground (arith, any-append (is_active_owner t db.memberships) db.member_roles (row ∷ []))

row_of_other :
    (t tenant_id id : String) (role : RoleCode) (ms : List Membership) (r : MemberRole)
    → ((tenant_id == t) ≡ false) ⊎ ((role == owner) ≡ false)
    → is_active_owner t ms r ≡ true
    → is_role_row tenant_id id role r ≡ false
row_of_other t tenant_id id role ms r other h =
    ground
      (arith, eq_iff r.tenant_id t, eq_iff r.tenant_id tenant_id, eq_iff tenant_id t, ==_refl t)

pub delete_role-keeps_owner :
    (t tenant_id id : String) (role : RoleCode) (db : Db) {deleted : Bool} {after : Db}
    → delete_role tenant_id id role db ≡ (ok deleted, after)
    → exists_active_owner t db ≡ true
    → exists_active_owner t after ≡ true
unfolding delete_role
delete_role-keeps_owner t tenant_id id role db h e = ground (
  arith,
  any-keep_none (is_active_owner t db.memberships) (is_role_row tenant_id id role) db.member_roles,
  kept,
  eq_iff tenant_id t,
)
  where
    kept :
        ((tenant_id == t) ≡ false) ⊎ ((role == owner) ≡ false)
        → any
            (is_active_owner t db.memberships)
            (keep (λ r. not (is_role_row tenant_id id role r)) db.member_roles)
          ≡ any (is_active_owner t db.memberships) db.member_roles
    kept other =
        any-keep_other (is_active_owner t db.memberships) (is_role_row tenant_id id role)
          db.member_roles (λ r. row_of_other t tenant_id id role db.memberships r other)

module _ {ℓ} {A : Type ℓ} where
  any-imp_unless :
      (p s q : A → Bool) (xs : List A)
      → any s xs ≡ false
      → ((x : A) → p x ≡ true → s x ≡ false → q x ≡ true)
      → any p xs ≡ true
      → any q xs ≡ true
  any-imp_unless p s q [] none_s h e = cc
  any-imp_unless p s q (x ∷ xs) none_s h e = ground (arith, h x, any-imp_unless p s q xs)

  any-map_imp :
      (p q : A → Bool) (f : A → A) (xs : List A)
      → ((x : A) → p x ≡ true → q (f x) ≡ true)
      → any p xs ≡ true
      → any q (map f xs) ≡ true
  any-map_imp p q f [] h e = cc
  any-map_imp p q f (x ∷ xs) h e = ground (arith, h x, any-map_imp p q f xs h)

module _ (t tenant_id id : String) (from to : MembershipStatus) (now : ℕ) where
  active_at : MemberRole → Membership → Bool
  active_at r m = is_membership r.tenant_id r.membership_id m && m.status == active

  active_at-restamp :
      (r : MemberRole)
      → (from ≡ active → is_role_of tenant_id id r ≡ false)
      → (m : Membership) → active_at r m ≡ true
      → active_at r (restamp tenant_id id from to now m) ≡ true
  unfolding active_at
  active_at-restamp r other m h = ground (
    arith,
    other,
    eq_iff m.id r.membership_id,
    eq_iff m.id id,
    eq_iff r.membership_id id,
    eq_iff m.tenant_id r.tenant_id,
    eq_iff m.tenant_id tenant_id,
    eq_iff r.tenant_id tenant_id,
    status_eqb_iff m.status from,
    status_eqb_iff m.status active,
  )

  is_active_owner-restamp :
      (ms : List Membership) (r : MemberRole)
      → (from ≡ active → is_role_of tenant_id id r ≡ false)
      → is_active_owner t ms r ≡ true
      → is_active_owner t (map (restamp tenant_id id from to now) ms) r ≡ true
  unfolding active_at
  is_active_owner-restamp ms r other h = ground (
    arith,
    any-map_imp (active_at r) (active_at r) (restamp tenant_id id from to now) ms
        (active_at-restamp r other),
  )

  not_role_of_owner :
      (r : MemberRole) (ms : List Membership)
      → is_active_owner t ms r ≡ true
      → is_role_row tenant_id id owner r ≡ false
      → is_role_of tenant_id id r ≡ false
  not_role_of_owner r ms h e = ground arith

  not_role_of_tenant :
      (r : MemberRole) (ms : List Membership)
      → (t == tenant_id) ≡ false
      → is_active_owner t ms r ≡ true
      → is_role_of tenant_id id r ≡ false
  not_role_of_tenant r ms other h =
      ground (arith, eq_iff r.tenant_id t, eq_iff r.tenant_id tenant_id, eq_iff t tenant_id)

  module _ (db : Db) (e : exists_active_owner t db ≡ true) where
    after_update : Db
    after_update = record db { memberships = map (restamp tenant_id id from to now) db.memberships }

    inactive_target : (from == active) ≡ false → exists_active_owner t after_update ≡ true
    unfolding after_update
    inactive_target h =
        any-imp (is_active_owner t db.memberships) _ db.member_roles
          (λ r. is_active_owner-restamp db.memberships r (λ same. ground (arith, same))) e

    target_no_owner :
        any (is_role_row tenant_id id owner) db.member_roles ≡ false
        → exists_active_owner t after_update ≡ true
    unfolding after_update
    target_no_owner h =
        any-imp_unless (is_active_owner t db.memberships) (is_role_row tenant_id id owner) _
          db.member_roles h
          (λ r held other.
            is_active_owner-restamp db.memberships r
              (λ _. not_role_of_owner r db.memberships held other) held)
          e

    other_tenant : (t == tenant_id) ≡ false → exists_active_owner t after_update ≡ true
    unfolding after_update
    other_tenant h =
        any-imp (is_active_owner t db.memberships) _ db.member_roles
          (λ r held.
            is_active_owner-restamp db.memberships r
              (λ _. not_role_of_tenant r db.memberships h held) held)
          e

    update_row-keeps_owner :
        (found : Option Membership) {new : Option Membership} {after : Db}
        → update_row tenant_id id from to now db found ≡ (ok new, after)
        → exists_active_owner t after ≡ true
    unfolding after_update
    update_row-keeps_owner none h = ground arith
    update_row-keeps_owner (some old) h =
        ground (arith, inactive_target, target_no_owner, other_tenant, eq_iff t tenant_id)

pub update_status-keeps_owner :
    (t tenant_id id : String) (from to : MembershipStatus) (now : ℕ) (db : Db)
    {new : Option Membership} {after : Db}
    → update_status tenant_id id from to now db ≡ (ok new, after)
    → exists_active_owner t db ≡ true
    → exists_active_owner t after ≡ true
unfolding update_status
update_status-keeps_owner t tenant_id id from to now db h e =
    update_row-keeps_owner t tenant_id id from to now db e
      (find (is_target tenant_id id from) db.memberships) h
