-- ===== src/Members/Access/Authority.antt =====
-- What an empty list of missing permissions means, and which roles give the actor its permissions.
use taller_mecario_b.Base.{
  String, Bool, true, ◌||◌, List, [], ◌∷◌, any, all, keep, ◌==◌, string_key, ◌≡◌, refl, sym, ◌∙◌,
  ap, arith, any-append, all-append, Bool-cases, inl, inr, ==_sound,
}
use mathlib.Core.Option
use taller_mecario_b.Collections.{has, add, set, frozen_set}
use taller_mecario_b.Collections.Laws.{has-frozen_set}
use taller_mecario_b.Authz.Roles.{
  RoleCode, owner, admin, service_advisor, technician, role_key, scope_key,
}
use taller_mecario_b.Authz.Assignment.{role_assignment_permission}
use taller_mecario_b.Authz.Matrix.{RolePermissionRow, list_role_permission_rows}
use taller_mecario_b.Authz.Matrix.Laws.{may_administer}
use taller_mecario_b.Members.Store.{MemberRole, Db, Actor}
use taller_mecario_b.Members.Access.{
  is_role_of, is_active_actor, codes_of_role, codes_of_roles, fresh_actor_permissions, required_for,
  missing_from, insert_sorted, sort, missing_target_authority,
}

sort-nil : (xs : List String) → sort xs ≡ [] → xs ≡ []
unfolding sort insert_sorted
sort-nil [] h = refl
sort-nil (x ∷ xs) h = absurd (not_nil (sort xs) h)
  where
    not_nil : (ys : List String) → insert_sorted x ys ≡ [] → ⊥
    not_nil [] h = cc
    not_nil (y ∷ ys) h = ground arith

missing_from-nil :
    (permissions codes : List String)
    → missing_from permissions codes ≡ []
    → all (λ code. has code permissions) codes ≡ true
missing_from-nil permissions [] h = refl
missing_from-nil permissions (code ∷ codes) h = ground (arith, missing_from-nil permissions codes)

module _ (p : String → Bool) where
  has-all : (x : String) (xs : List String) → has x xs ≡ true → all p xs ≡ true → p x ≡ true
  has-all x [] h hs = cc
  has-all x (y ∷ xs) h hs = elim (Bool-cases (y == x)) [
    | inl same ↦ ground (arith, ap p (==_sound y x same))
    | inr other ↦ has-all x xs (ground (arith, other)) (ground arith)
  ]

  all-add :
      (x : String) (xs : List String) → all p (add x xs) ≡ true → (all p xs ≡ true) × (p x ≡ true)
  all-add x xs h = elim (Bool-cases (has x xs)) [
    | inl old ↦ let hs : all p xs ≡ true = rw old at h in (hs, has-all x xs old hs)
    | inr new ↦ (ground (arith, all-append p xs (x ∷ [])), ground (arith, all-append p xs (x ∷ [])))
  ]

  all-required_for :
      (seen : List String) (roles : List RoleCode)
      → all p (required_for seen roles) ≡ true
      → (all p seen ≡ true) × (all (λ role. p (role_assignment_permission role)) roles ≡ true)
  unfolding required_for
  all-required_for seen [] h = (h, refl)
  all-required_for seen (role ∷ roles) h =
      let (added, rest) = all-required_for (add (role_assignment_permission role) seen) roles h in
      let (before, here) = all-add (role_assignment_permission role) seen added in
      (before, rw (here, rest) refl)

-- Whether the permissions cover the administration of a role.
abbrev pub may_assign : List String → RoleCode → Bool
may_assign permissions role = has (role_assignment_permission role) permissions

-- No permission is missing: each of the roles is covered.
pub missing_target_authority-nil :
    (permissions : List String) (roles : List RoleCode)
    → missing_target_authority permissions roles ≡ []
    → all (may_assign permissions) roles ≡ true
unfolding missing_target_authority
missing_target_authority-nil permissions roles h =
    (all-required_for (λ code. has code permissions) [] roles
      (missing_from-nil permissions _ (sort-nil _ h))).1

has-codes_of_roles :
    (code : String) (rows : List MemberRole) (table : List RolePermissionRow)
    → has code (codes_of_roles rows table)
      ≡ any (λ (r : MemberRole). has code (codes_of_role r.role table)) rows
unfolding codes_of_roles
has-codes_of_roles code [] table = refl
has-codes_of_roles code (r ∷ rows) table =
    any-append (λ c. c == code) (codes_of_role r.role table) (codes_of_roles rows table)
    ∙ ap (λ b. has code (codes_of_role r.role table) || b) (has-codes_of_roles code rows table)

-- The seeded table gives a role the administration of another exactly where the hierarchy does.
pub seeded_authority :
    (holder role : RoleCode)
    → has (role_assignment_permission role) (codes_of_role holder list_role_permission_rows)
      ≡ may_administer holder role
unfolding list_role_permission_rows Option.bind set
seeded_authority owner owner = refl
seeded_authority owner admin = refl
seeded_authority owner service_advisor = refl
seeded_authority owner technician = refl
seeded_authority admin owner = refl
seeded_authority admin admin = refl
seeded_authority admin service_advisor = refl
seeded_authority admin technician = refl
seeded_authority service_advisor owner = refl
seeded_authority service_advisor admin = refl
seeded_authority service_advisor service_advisor = refl
seeded_authority service_advisor technician = refl
seeded_authority technician owner = refl
seeded_authority technician admin = refl
seeded_authority technician service_advisor = refl
seeded_authority technician technician = refl

-- The role rows of the actor.
abbrev pub rows_of_actor : Db → Actor → List MemberRole
rows_of_actor db actor = keep (is_role_of actor.tenant_id actor.membership_id) db.member_roles

module _ {ℓ} {A : Type ℓ} (p q : A → Bool) (same : (a : A) → p a ≡ q a) where
  any-same : (xs : List A) → any p xs ≡ any q xs
  any-same [] = refl
  any-same (x ∷ xs) = ground (arith, same x, any-same xs)

-- On the seeded table, an actor that may assign a role holds one that administers it.
pub fresh_actor_permissions-administers :
    (db : Db) (actor : Actor) (role : RoleCode)
    → db.role_permissions ≡ list_role_permission_rows
    → may_assign (fresh_actor_permissions db actor) role ≡ true
    → any (λ (r : MemberRole). may_administer r.role role) (rows_of_actor db actor) ≡ true
unfolding fresh_actor_permissions
fresh_actor_permissions-administers db actor role seeded h =
    elim (Bool-cases (any (is_active_actor actor) db.memberships)) [
      | inl active ↦
          let inside : has code (frozen_set (codes_of_roles rows db.role_permissions)) ≡ true =
            rw active at h in
          sym (
            any-same (λ (r : MemberRole). has code (codes_of_role r.role list_role_permission_rows))
              (λ (r : MemberRole). may_administer r.role role) (λ r. seeded_authority r.role role)
              rows)
          ∙ sym (has-codes_of_roles code rows list_role_permission_rows)
          ∙ ap (λ table. has code (codes_of_roles rows table)) (sym seeded)
          ∙ sym (has-frozen_set code (codes_of_roles rows db.role_permissions))
          ∙ inside
      | inr inactive ↦ absurd (ground (arith, inactive))
    ]
  where
    code : String
    code = role_assignment_permission role

    rows : List MemberRole
    rows = rows_of_actor db actor
