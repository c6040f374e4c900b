-- ===== src/Members/Access/Listing.antt =====
-- The transfer objects of a member's roles list the roles of the rows of `membership_roles`.
use taller_mecario_b.Base.{
  ℕ, String, Bool, true, false, ◌&&◌, ◌||◌, List, [], ◌∷◌, ◌++◌, Option, none, some, any,
  any-append, keep, ◌==◌, string_key, if◌then◌else◌, map, ◌≡◌, refl, ◌∙◌, ap, arith,
}
use taller_mecario_b.Collections.{has, get, set, set_all, frozen_map}
use taller_mecario_b.Collections.Laws.{get-set}
use taller_mecario_b.Authz.Roles.{
  RoleCode, owner, admin, service_advisor, technician, role_key, role_eqb_iff, role_codes,
}
use taller_mecario_b.Members.Store.{MemberRole, Db}
use taller_mecario_b.Members.Access.{
  MemberRoleDto, is_role_of, role_entry, roles_in_order, ordered_roles, roles_of,
}
use taller_mecario_b.Members.Triggers.{is_role_row}
use taller_mecario_b.Members.Roles.{held_roles}

is_some : {A : Type 0} → Option A → Bool
is_some none = false
is_some (some a) = true

get-set_all-is_some :
    (k : RoleCode) (m es : List (RoleCode × ℕ))
    → is_some (get k (set_all m es)) ≡ is_some (get k m) || any (λ (e : RoleCode × ℕ). e.0 == k) es
unfolding set_all is_some
get-set_all-is_some k m [] = ground arith
get-set_all-is_some k m ((j, v) ∷ es) =
    get-set_all-is_some k (set j v m) es ∙ rw (get-set j k v m) (by_key (j == k) (get k m))
  where
    by_key :
        (same : Bool) (o : Option ℕ)
        → is_some (if same then some v else o) || any (λ (e : RoleCode × ℕ). e.0 == k) es
          ≡ is_some o || (same || any (λ (e : RoleCode × ℕ). e.0 == k) es)
    by_key same o = ground arith

has-role_entry :
    (role code : RoleCode) (o : Option ℕ)
    → has role (held_roles (role_entry code o)) ≡ (code == role) && is_some o
unfolding is_some
has-role_entry role code none = ground arith
has-role_entry role code (some at) = ground arith

held_roles-append :
    (xs ys : List MemberRoleDto) → held_roles (xs ++ ys) ≡ held_roles xs ++ held_roles ys
held_roles-append [] ys = refl
held_roles-append (x ∷ xs) ys = ap (λ roles. x.role ∷ roles) (held_roles-append xs ys)

has-roles_in_order :
    (held : List (RoleCode × ℕ)) (role : RoleCode) (codes : List RoleCode)
    → has role (held_roles (roles_in_order held codes)) ≡ has role codes && is_some (get role held)
unfolding roles_in_order
has-roles_in_order held role [] = refl
has-roles_in_order held role (code ∷ codes) = ground (
  arith,
  held_roles-append (role_entry code (get code held)) (roles_in_order held codes),
  any-append (λ r. r == role) (held_roles (role_entry code (get code held)))
      (held_roles (roles_in_order held codes)),
  has-role_entry role code (get code held),
  has-roles_in_order held role codes,
  role_eqb_iff code role,
)

-- Every role has its place in the order.
role_codes-all : (role : RoleCode) → has role role_codes ≡ true
role_codes-all owner = refl
role_codes-all admin = refl
role_codes-all service_advisor = refl
role_codes-all technician = refl

any-entries :
    (tenant_id id : String) (role : RoleCode) (rows : List MemberRole)
    → any
        (λ (e : RoleCode × ℕ). e.0 == role)
        (map (λ (r : MemberRole). (r.role, r.assigned_at)) (keep (is_role_of tenant_id id) rows))
      ≡ any (is_role_row tenant_id id role) rows
any-entries tenant_id id role [] = refl
any-entries tenant_id id role (r ∷ rows) = ground (arith, any-entries tenant_id id role rows)

pub has-roles_of :
    (db : Db) (tenant_id id : String) (role : RoleCode)
    → has role (held_roles (roles_of db tenant_id id))
      ≡ any (is_role_row tenant_id id role) db.member_roles
unfolding roles_of ordered_roles frozen_map is_some
has-roles_of db tenant_id id role =
    has-roles_in_order entries role role_codes
    ∙ rw (role_codes-all role)
        (get-set_all-is_some role [] _ ∙ any-entries tenant_id id role db.member_roles)
  where
    entries : List (RoleCode × ℕ)
    entries = frozen_map (
        map (λ (r : MemberRole). (r.role, r.assigned_at))
          (keep (is_role_of tenant_id id) db.member_roles))
