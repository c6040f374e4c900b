-- ===== src/Members/Roles/Prepare.antt =====
-- What the guards shared by the role commands meet.
use taller_mecario_b.Base.{all, all-append, keep, ap, sym, ◌∙◌, subst, arith}
use taller_mecario_b.Authz.Roles.{role_text, role_codes, owner, admin, service_advisor, technician}
use taller_mecario_b.Members.Access.Authority.{may_assign, missing_target_authority-nil}
use taller_mecario_b.Base.{
  String, Bool, true, false, List, [], ◌∷◌, ◌++◌, Option, none, some, find, ◌==◌, string_key, ◌≡◌,
  refl,
}
use taller_mecario_b.Collections.{has}
use taller_mecario_b.Authz.Roles.{RoleCode, role_key}
use taller_mecario_b.Members.Store.{
  Membership, active, status_key, status_eqb_iff, Db, AuditAction, AuditRow, denied, MemberError,
}
use taller_mecario_b.Members.Tx.{◌>>=◌}
use taller_mecario_b.Members.Tx.Meets.{
  Meets, Meets-return, Meets-check, Meets-query, Meets-reads, Outcome,
}
use taller_mecario_b.Members.Access.{
  MemberRoleDto, is_membership, roles_of, fresh_actor_permissions, missing_target_authority,
}
use taller_mecario_b.Members.Roles.{
  RequestContext, manage_permission, held_roles, lock_target, or_not_found, refuse_self,
  refuse_missing, when, prepare_change, is_durable,
}

-- A durable refusal leaves one more audit row, of the actor and denied, and nothing else changed.
-- What any other error leaves is rolled back.
abbrev pub Refused : RequestContext → Db → MemberError → Db → Type 0
Refused context db e after =
    is_durable e ≡ true
    → (row : AuditRow) × (after ≡ record db { audit_logs = db.audit_logs ++ row ∷ [] })
      × (row.outcome ≡ denied)
      × (row.actor ≡ context.tenant)

-- What a prepared change has checked.
pub record Prepared (context : RequestContext) (id : String) (role : RoleCode) (db : Db)
    (target : Membership) (roles : List MemberRoleDto) : Type 0 where
  pub not_self : (id == context.tenant.membership_id) ≡ false
  pub found : find (is_membership context.tenant.tenant_id id) db.memberships ≡ some target
  pub held : roles ≡ roles_of db context.tenant.tenant_id target.id
  pub managed : has manage_permission (fresh_actor_permissions db context.tenant) ≡ true
  pub authorized :
      missing_target_authority (fresh_actor_permissions db context.tenant) (role ∷ held_roles roles)
      ≡ []
  pub is_active : target.status ≡ active

pub lock_target-Meets :
    (context : RequestContext) (id : String) (db : Db)
    → Meets
        (Refused context db)
        (λ target after.
          (after ≡ db)
          × (find (is_membership context.tenant.tenant_id id) db.memberships ≡ some target))
        (lock_target context.tenant.tenant_id id)
        db
unfolding lock_target ◌>>=◌
lock_target-Meets context id db = record {
  at = by_row (find (is_membership context.tenant.tenant_id id) db.memberships) refl;
}
  where
    by_row :
        (o : Option Membership)
        → find (is_membership context.tenant.tenant_id id) db.memberships ≡ o
        → Outcome
            (Refused context db)
            (λ target after.
              (after ≡ db)
              × (find (is_membership context.tenant.tenant_id id) db.memberships ≡ some target))
            (or_not_found o db)
    by_row none h = λ durable. cc
    by_row (some m) h = (refl, h)

refuse_self-Meets :
    (context : RequestContext) (action : AuditAction) (id : String) (role : RoleCode) (db : Db)
    (same : Bool)
    → Meets
        (Refused context db)
        (λ _ after. (after ≡ db) × (same ≡ false))
        (when same (refuse_self context action id role))
        db
unfolding ◌>>=◌
refuse_self-Meets context action id role db true = record { at = λ durable. (_, refl, refl, refl) }
refuse_self-Meets context action id role db false = record { at = (refl, refl) }

refuse_missing-Meets :
    (context : RequestContext) (action : AuditAction) (id : String) (role : RoleCode) (db : Db)
    (missing : List String)
    → Meets
        (Refused context db)
        (λ _ after. (after ≡ db) × (missing ≡ []))
        (refuse_missing context action id role missing)
        db
unfolding ◌>>=◌
refuse_missing-Meets context action id role db [] = record { at = (refl, refl) }
refuse_missing-Meets context action id role db (code ∷ codes) = record {
  at = λ durable. (_, refl, refl, refl);
}

pub prepare_change-Meets :
    (context : RequestContext) (action : AuditAction) (id : String) (role : RoleCode) (db : Db)
    → Meets
        (Refused context db)
        (λ p after. (after ≡ db) × Prepared context id role db p.0 p.1)
        (prepare_change context action id role)
        db
unfolding prepare_change
prepare_change-Meets context action id role db =
    Meets-reads (λ _. (id == context.tenant.membership_id) ≡ false) _ _
      (refuse_self-Meets context action id role db (id == context.tenant.membership_id))
      λ _ not_self. Meets-query _ _ (
        Meets-reads _ _ _ (lock_target-Meets context id db) λ target found. Meets-query _ _ (
          Meets-check _ _ _ (λ _ durable. cc)
            λ managed.
              Meets-reads _ _ _ (refuse_missing-Meets context action target.id role db _)
                λ _ authorized.
                  Meets-check _ _ _ (λ _ durable. cc)
                    λ is_active. Meets-return _ (
                      refl,
                      record {
                        not_self = not_self;
                        found = found;
                        held = refl;
                        managed = managed;
                        authorized = authorized;
                        is_active = (status_eqb_iff target.status active).0 is_active;
                      },
                    )))

role_alone :
    (p : RoleCode → Bool) (role : RoleCode)
    → all p (keep (λ code. role_text code == role_text role) role_codes) ≡ p role
role_alone p owner = ground arith
role_alone p admin = ground arith
role_alone p service_advisor = ground arith
role_alone p technician = ground arith

-- The role that a role command changes, and the held ones, are covered.
pub Prepared-authorized :
    (context : RequestContext) (id input : String) (role : RoleCode) (db : Db) (target : Membership)
    (roles : List MemberRoleDto)
    → role_text role ≡ input
    → Prepared context id role db target roles
    → all (may_assign (fresh_actor_permissions db context.tenant)) (
        keep (λ code. role_text code == input) role_codes
        ++ held_roles (roles_of db context.tenant.tenant_id target.id))
      ≡ true
Prepared-authorized context id input role db target roles named ready =
    subst
      (λ (code : String).
        all p (
          keep (λ c. role_text c == code) role_codes
          ++ held_roles (roles_of db context.tenant.tenant_id target.id))
        ≡ true)
      named
      (ground (
        arith,
        role_alone p role,
        covered,
        all-append p (keep (λ c. role_text c == role_text role) role_codes)
            (held_roles (roles_of db context.tenant.tenant_id target.id)),
      ))
  where
    p : RoleCode → Bool
    p = may_assign (fresh_actor_permissions db context.tenant)

    covered : all p (role ∷ held_roles (roles_of db context.tenant.tenant_id target.id)) ≡ true
    covered = missing_target_authority-nil _ _ (
        ap
          (λ roles.
            missing_target_authority (fresh_actor_permissions db context.tenant)
              (role ∷ held_roles roles))
          (sym ready.held)
        ∙ ready.authorized)
