-- ===== src/Members/Roles/Effects.antt =====
-- What the role commands do to the role rows and reply, and that they undo each other.
use taller_mecario_b.Base.{
  String, Bool, true, false, not, List, [], ◌∷◌, ◌++◌, some, ok, any, any-append, keep, find,
  find_sound, ◌==◌, string_key, nat_key, ◌≡◌, refl, sym, ◌∙◌, ap, ap₂, subst, arith, ==_refl,
  eq_iff,
}
use taller_mecario_b.Collections.{has}
use taller_mecario_b.Authz.Roles.{
  RoleCode, owner, admin, service_advisor, technician, role_key, role_eqb_iff, role_text,
  role_codes,
}
use taller_mecario_b.Members.Store.{Membership, MemberRole, Db, MemberError, status_key}
use taller_mecario_b.Members.Tx.{Tx}
use taller_mecario_b.Members.Tx.Meets.{Meets, Outcome}
use taller_mecario_b.Members.Access.{is_membership, roles_of}
use taller_mecario_b.Members.Access.Listing.{has-roles_of}
use taller_mecario_b.Members.Triggers.{is_role_row, insert_role, delete_role}
use taller_mecario_b.Members.Roles.{
  RequestContext, MemberRolesDto, held_roles, new_row, assign_member_role, remove_member_role,
}
use taller_mecario_b.Members.Roles.Specs.{
  Assigned, assign_member_role-Meets, Removed, remove_member_role-Meets,
}

-- A step that returned has its postcondition.
returned :
    {A : Type 0} (E : MemberError → Db → Type 0) (Q : A → Db → Type 0) {step : Tx A} {db : Db}
    {a : A} {after : Db}
    → Meets E Q step db
    → step db ≡ (ok a, after)
    → Q a after
returned E Q meets h = subst (Outcome E Q) h meets.at

is_membership-id :
    (tenant_id id : String) (ms : List Membership) {m : Membership}
    → find (is_membership tenant_id id) ms ≡ some m
    → m.id ≡ id
is_membership-id tenant_id id ms {m} h =
    let found = find_sound (is_membership tenant_id id) ms h in ground (arith, eq_iff m.id id)

insert_role-one :
    (row : MemberRole) (db : Db) {after : Db}
    → insert_role row db ≡ (ok 1, after)
    → (any (is_role_row row.tenant_id row.membership_id row.role) db.member_roles ≡ false)
      × (after ≡ record db { member_roles = db.member_roles ++ row ∷ [] })
unfolding insert_role
insert_role-one row db h = (ground arith, ground arith)

delete_role-one :
    (tenant_id id : String) (role : RoleCode) (db : Db) {after : Db}
    → delete_role tenant_id id role db ≡ (ok true, after)
    → (any (is_role_row tenant_id id role) db.member_roles ≡ true)
      × (after ≡ record db {
        member_roles = keep (λ r. not (is_role_row tenant_id id role r)) db.member_roles;
      })
unfolding delete_role
delete_role-one tenant_id id role db h = (ground arith, ground arith)

new_row-is_role_row :
    (context : RequestContext) (id : String) (role : RoleCode)
    → is_role_row context.tenant.tenant_id id role (new_row context id role) ≡ true
new_row-is_role_row context id role =
    ground (arith, ==_refl context.tenant.tenant_id, ==_refl id, role_eqb_iff role role)

-- An assignment that returns was of a role that the member did not hold; it adds one row for it at the
-- end and changes no other row, and its reply lists the role.
pub assign_member_role-adds :
    (context : RequestContext) (id input : String) (db : Db) (reply : MemberRolesDto) (after : Db)
    → assign_member_role context id input db ≡ (ok reply, after)
    → (role : RoleCode) × (role_text role ≡ input)
      × (has role (held_roles (roles_of db context.tenant.tenant_id id)) ≡ false)
      × (after.member_roles ≡ db.member_roles ++ new_row context id role ∷ [])
      × (after.memberships ≡ db.memberships)
      × (has role (held_roles reply.roles) ≡ true)
assign_member_role-adds context id input db reply after h =
    let (role, mid, named, done, ran) =
      returned _ (Assigned context id input db) (assign_member_role-Meets context id input db) h in
    let same = is_membership-id t id db.memberships done.prepared.found in
    let (fresh, grown) =
      insert_role-one (new_row context id role) db
        (subst (λ i. insert_role (new_row context i role) db ≡ (ok 1, mid)) same ran) in
    (
      role,
      named,
      has-roles_of db t id role ∙ fresh,
      ap (λ (d : Db). d.member_roles) (done.audited) ∙ ap (λ (d : Db). d.member_roles) grown,
      ap (λ (d : Db). d.memberships) (done.audited) ∙ ap (λ (d : Db). d.memberships) grown,
      ap (λ (d : MemberRolesDto). has role (held_roles d.roles)) done.replied
          ∙ ap (λ i. has role (held_roles (roles_of mid t i))) same
          ∙ has-roles_of mid t id role
          ∙ ap (λ (d : Db). any (is_role_row t id role) d.member_roles) grown
          ∙ any-append (is_role_row t id role) db.member_roles (new_row context id role ∷ [])
          ∙ ground (arith, new_row-is_role_row context id role),
    )
  where
    t : String
    t = context.tenant.tenant_id

any-keep-not : {A : Type 0} (p : A → Bool) (xs : List A) → any p (keep (λ x. not (p x)) xs) ≡ false
any-keep-not p [] = refl
any-keep-not p (x ∷ xs) = ground (arith, any-keep-not p xs)

-- A removal that returns was of a role that the member held; it deletes the rows of the role and no
-- other, and its reply does not list the role.
pub remove_member_role-drops :
    (context : RequestContext) (id input : String) (db : Db) (reply : MemberRolesDto) (after : Db)
    → remove_member_role context id input db ≡ (ok reply, after)
    → (role : RoleCode) × (role_text role ≡ input)
      × (has role (held_roles (roles_of db context.tenant.tenant_id id)) ≡ true)
      × (after.member_roles
          ≡ keep (λ r. not (is_role_row context.tenant.tenant_id id role r)) db.member_roles)
      × (after.memberships ≡ db.memberships)
      × (has role (held_roles reply.roles) ≡ false)
remove_member_role-drops context id input db reply after h =
    let (role, mid, named, done, ran) =
      returned _ (Removed context id input db) (remove_member_role-Meets context id input db) h in
    let same = is_membership-id t id db.memberships done.prepared.found in
    let (held, shrunk) =
      delete_role-one t id role db
        (subst (λ i. delete_role t i role db ≡ (ok true, mid)) same ran) in
    (
      role,
      named,
      has-roles_of db t id role ∙ held,
      ap (λ (d : Db). d.member_roles) (done.audited) ∙ ap (λ (d : Db). d.member_roles) shrunk,
      ap (λ (d : Db). d.memberships) (done.audited) ∙ ap (λ (d : Db). d.memberships) shrunk,
      ap (λ (d : MemberRolesDto). has role (held_roles d.roles)) done.replied
          ∙ ap (λ i. has role (held_roles (roles_of mid t i))) same
          ∙ has-roles_of mid t id role
          ∙ ap (λ (d : Db). any (is_role_row t id role) d.member_roles) shrunk
          ∙ any-keep-not (is_role_row t id role) db.member_roles,
    )
  where
    t : String
    t = context.tenant.tenant_id

module _ {ℓ} {A : Type ℓ} (p : A → Bool) where
  keep-all : (xs : List A) → any p xs ≡ false → keep (λ x. not (p x)) xs ≡ xs
  keep-all [] h = refl
  keep-all (x ∷ xs) h = ground (arith, keep-all xs)

  keep-append_hit :
      (xs : List A) (x : A)
      → any p xs ≡ false
      → p x ≡ true
      → keep (λ x. not (p x)) (xs ++ x ∷ []) ≡ xs
  keep-append_hit [] x h hit = ground (arith, hit)
  keep-append_hit (y ∷ xs) x h hit = ground (arith, keep-append_hit xs x)

find-role_text : (r : RoleCode) → find (λ code. role_text code == role_text r) role_codes ≡ some r
find-role_text owner = refl
find-role_text admin = refl
find-role_text service_advisor = refl
find-role_text technician = refl

role_text-injective : {a b : RoleCode} → role_text a ≡ role_text b → a ≡ b
role_text-injective {a} {b} h =
    let both : some a ≡ some b =
      sym (find-role_text a)
      ∙ ap (λ s. find (λ code. role_text code == s) role_codes) h
      ∙ find-role_text b in
    cc

-- A role that is assigned and then removed again, by whichever actors of the tenant, leaves the role
-- rows as they were before both.
pub remove-assign :
    (context context' : RequestContext) (id input : String) (db mid after : Db)
    (reply reply' : MemberRolesDto)
    → context'.tenant.tenant_id ≡ context.tenant.tenant_id
    → assign_member_role context id input db ≡ (ok reply, mid)
    → remove_member_role context' id input mid ≡ (ok reply', after)
    → after.member_roles ≡ db.member_roles
remove-assign context context' id input db mid after reply reply' same assigned removed =
    let (role, named, fresh, grown, _, _) =
      assign_member_role-adds context id input db reply mid assigned in
    let (role', named', _, shrunk, _, _) =
      remove_member_role-drops context' id input mid reply' after removed in
    let one_role : role' ≡ role = role_text-injective (named' ∙ sym named) in
    let absent = sym (has-roles_of db t id role) ∙ fresh in
    shrunk
    ∙ ap₂ (λ t' r. keep (λ x. not (is_role_row t' id r x)) mid.member_roles) same one_role
    ∙ ap (keep (λ x. not (is_role_row t id role x))) grown
    ∙ keep-append_hit (is_role_row t id role) db.member_roles (new_row context id role) absent
        (new_row-is_role_row context id role)
  where
    t : String
    t = context.tenant.tenant_id
