-- ===== src/Members/Roles/Specs.antt =====
-- What the role commands meet: which facts a command that returns has checked and which statement it
-- ran, and what it leaves where it throws. The theorems on requests rest on these.
use taller_mecario_b.Base.{
  String, true, false, List, [], ◌∷◌, ◌++◌, Option, none, some, ok, find, ◌==◌, string_key,
  nat_eqb_iff, ◌≡◌, refl, ◌∙◌, ap, arith, ==_sound, find_sound,
}
use taller_mecario_b.Authz.Roles.{RoleCode, role_key, role_text, role_codes}
use taller_mecario_b.Members.Store.{
  Membership, status_key, Db, AuditAction, role_assigned, role_revoked, AuditRow, success,
  Violation,
}
use taller_mecario_b.Members.Tx.{◌>>=◌}
use taller_mecario_b.Members.Tx.Meets.{
  Meets, Meets-return, Meets-check, Meets-query, Meets-audit, Meets-attempt, Meets-reads, Outcome,
}
use taller_mecario_b.Members.Access.{MemberRoleDto, roles_of}
use taller_mecario_b.Members.Triggers.{insert_role, delete_role}
use taller_mecario_b.Members.Roles.{
  RequestContext, MemberRolesDto, inserting, deleting, parse_role, or_unknown, dto, new_row,
  assign_member_role, remove_member_role, is_durable,
}
use taller_mecario_b.Members.Roles.Prepare.{Refused, Prepared, prepare_change-Meets}

-- What a role that was assigned or removed has checked, and what it changed: the statement that ran,
-- and one audit row behind it.
pub record Changed (context : RequestContext) (id : String) (role : RoleCode) (action : AuditAction)
    (db : Db) (mid : Db) (reply : MemberRolesDto) (after : Db) : Type 0 where
  pub target : Membership
  pub roles : List MemberRoleDto
  pub prepared : Prepared context id role db target roles
  pub row : AuditRow
  pub audited : after ≡ record mid { audit_logs = mid.audit_logs ++ row ∷ [] }
  pub is_success : row.outcome ≡ success
  pub by_actor : row.actor ≡ context.tenant
  pub as_action : row.action ≡ action
  pub on_target : row.entity_id ≡ target.id
  pub replied : reply ≡ dto target (roles_of mid context.tenant.tenant_id target.id)

-- A text that is a role code is that of its role.
parse_role-Meets :
    (context : RequestContext) (input : String) (db : Db)
    → Meets
        (Refused context db)
        (λ role after. (after ≡ db) × (role_text role ≡ input))
        (parse_role input)
        db
unfolding parse_role ◌>>=◌
parse_role-Meets context input db = record {
  at = by_code (find (λ code. role_text code == input) role_codes) refl;
}
  where
    by_code :
        (o : Option RoleCode)
        → find (λ code. role_text code == input) role_codes ≡ o
        → Outcome
            (Refused context db)
            (λ role after. (after ≡ db) × (role_text role ≡ input))
            (or_unknown o db)
    by_code none h = λ durable. cc
    by_code (some role) h = (
      refl,
      ==_sound (role_text role) input (find_sound (λ code. role_text code == input) role_codes h),
    )

inserting_transient : (v : Violation) → is_durable (inserting v) ≡ false
inserting_transient v = ground arith

deleting_transient : (v : Violation) → is_durable (deleting v) ≡ false
deleting_transient v = ground arith

abbrev pub Assigned : RequestContext → String → String → Db → MemberRolesDto → Db → Type 0
Assigned context id input db reply after =
    (role : RoleCode) × (mid : Db) × (role_text role ≡ input)
    × (done : Changed context id role role_assigned db mid reply after) × (insert_role
          (new_row context done.target.id role) db
        ≡ (ok 1, mid))

pub assign_member_role-Meets :
    (context : RequestContext) (id input : String) (db : Db)
    → Meets
        (Refused context db)
        (Assigned context id input db)
        (assign_member_role context id input)
        db
unfolding assign_member_role
assign_member_role-Meets context id input db =
    Meets-reads _ _ _ (parse_role-Meets context input db) λ role named.
      Meets-reads (λ p. Prepared context id role db p.0 p.1) _ _
        (prepare_change-Meets context role_assigned id role db)
        λ (target, roles) ready.
          Meets-check _ _ _ (λ _ durable. cc)
            λ fresh.
              Meets-attempt _ _ _ (λ v after ran durable. cc (inserting_transient v))
                λ n mid ran.
                  Meets-check _ _ _ (λ _ durable. cc)
                    λ one. Meets-query _ _ (
                      Meets-audit _ _ (
                        Meets-return _ (
                          role,
                          mid,
                          named,
                          record {
                            target = target;
                            roles = roles;
                            prepared = ready;
                            row = _;
                            audited = refl;
                            is_success = refl;
                            by_actor = refl;
                            as_action = refl;
                            on_target = refl;
                            replied = refl;
                          },
                          ran ∙ ap (λ k. (ok k, mid)) ((nat_eqb_iff n 1).0 one),
                        )))

abbrev pub Removed : RequestContext → String → String → Db → MemberRolesDto → Db → Type 0
Removed context id input db reply after =
    (role : RoleCode) × (mid : Db) × (role_text role ≡ input)
    × (done : Changed context id role role_revoked db mid reply after) × (delete_role
          context.tenant.tenant_id done.target.id role db
        ≡ (ok true, mid))

pub remove_member_role-Meets :
    (context : RequestContext) (id input : String) (db : Db)
    → Meets
        (Refused context db)
        (Removed context id input db)
        (remove_member_role context id input)
        db
unfolding remove_member_role
remove_member_role-Meets context id input db =
    Meets-reads _ _ _ (parse_role-Meets context input db) λ role named.
      Meets-reads (λ p. Prepared context id role db p.0 p.1) _ _
        (prepare_change-Meets context role_revoked id role db)
        λ (target, roles) ready.
          Meets-check _ _ _ (λ _ durable. cc)
            λ held. Meets-query _ _ (
              Meets-check _ _ _ (λ _ durable. cc)
                λ owners.
                  Meets-attempt _ _ _ (λ v after ran durable. cc (deleting_transient v))
                    λ deleted mid ran.
                      Meets-check _ _ _ (λ _ durable. cc)
                        λ one. Meets-query _ _ (
                          Meets-audit _ _ (
                            Meets-return _ (
                              role,
                              mid,
                              named,
                              record {
                                target = target;
                                roles = roles;
                                prepared = ready;
                                row = _;
                                audited = refl;
                                is_success = refl;
                                by_actor = refl;
                                as_action = refl;
                                on_target = refl;
                                replied = refl;
                              },
                              ran ∙ ap (λ k. (ok k, mid)) one,
                            ))))
