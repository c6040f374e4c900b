-- ===== src/Members/Lifecycle/Specs.antt =====
-- What a change of a membership's status meets, as Members/Roles/Specs.antt for the role commands.
use taller_mecario_b.Base.{
  String, Bool, true, false, List, [], ◌∷◌, ◌++◌, Option, none, some, ok, find, ◌==◌, string_key,
  ◌≡◌, refl, ◌∙◌, ap, arith,
}
use taller_mecario_b.Collections.{has}
use taller_mecario_b.Authz.Roles.{RoleCode}
use taller_mecario_b.Members.Store.{
  Membership, status_key, Db, MembershipCommand, AuditRow, success, Violation,
}
use taller_mecario_b.Members.Tx.{◌>>=◌}
use taller_mecario_b.Members.Tx.Meets.{
  Meets, Meets-return, Meets-throw, Meets-check, Meets-query, Meets-audit, Meets-attempt,
  Meets-reads,
}
use taller_mecario_b.Members.Access.{
  is_membership, roles_of, fresh_actor_permissions, missing_target_authority,
}
use taller_mecario_b.Members.Triggers.{update_status}
use taller_mecario_b.Members.Roles.{RequestContext, manage_permission, held_roles, when, is_durable}
use taller_mecario_b.Members.Roles.Prepare.{Refused, lock_target-Meets}
use taller_mecario_b.Members.Lifecycle.{
  MembershipDto, transition_action, transition_to, transition_from, to_dto, refuse_self,
  refuse_missing, updating, or_failed, change_membership_status,
}

refuse_self-Meets :
    (context : RequestContext) (command : MembershipCommand) (id : String) (db : Db) (same : Bool)
    → Meets
        (Refused context db)
        (λ _ after. (after ≡ db) × (same ≡ false))
        (when same (refuse_self context command id))
        db
unfolding ◌>>=◌
refuse_self-Meets context command id db true = record { at = λ durable. (_, refl, refl, refl) }
refuse_self-Meets context command id db false = record { at = (refl, refl) }

refuse_missing-Meets :
    (context : RequestContext) (command : MembershipCommand) (id : String) (held : List RoleCode)
    (db : Db) (missing : List String)
    → Meets
        (Refused context db)
        (λ _ after. (after ≡ db) × (missing ≡ []))
        (refuse_missing context command id held missing)
        db
unfolding ◌>>=◌
refuse_missing-Meets context command id held db [] = record { at = (refl, refl) }
refuse_missing-Meets context command id held db (code ∷ codes) = record {
  at = λ durable. (_, refl, refl, refl);
}

updating_transient : (v : Violation) → is_durable (updating v) ≡ false
updating_transient v = ground arith

or_failed-Meets :
    (context : RequestContext) (base : Db) (db : Db) (found : Option Membership)
    → Meets
        (Refused context base)
        (λ updated after. (after ≡ db) × (found ≡ some updated))
        (or_failed found)
        db
or_failed-Meets context base db none = Meets-throw _ λ durable. cc
or_failed-Meets context base db (some row) = Meets-return _ (refl, refl)

-- What a changed status has checked, and what it changed: the statement that ran, and one audit row.
pub record StatusChanged (context : RequestContext) (command : MembershipCommand) (id : String)
    (db : Db) (reply : MembershipDto) (after : Db) : Type 0 where
  pub target : Membership
  pub updated : Membership
  pub mid : Db
  pub row : AuditRow
  pub not_self : (id == context.tenant.membership_id) ≡ false
  pub found : find (is_membership context.tenant.tenant_id id) db.memberships ≡ some target
  pub managed : has manage_permission (fresh_actor_permissions db context.tenant) ≡ true
  pub authorized :
      missing_target_authority
        (fresh_actor_permissions db context.tenant)
        (held_roles (roles_of db context.tenant.tenant_id target.id))
      ≡ []
  pub from_allowed : has target.status (transition_from command) ≡ true
  pub ran :
      update_status context.tenant.tenant_id target.id target.status
        (transition_to command)
        context.now
        db
      ≡ (ok (some updated), mid)
  pub audited : after ≡ record mid { audit_logs = mid.audit_logs ++ row ∷ [] }
  pub is_success : row.outcome ≡ success
  pub by_actor : row.actor ≡ context.tenant
  pub as_action : row.action ≡ transition_action command
  pub on_target : row.entity_id ≡ target.id
  pub replied : reply ≡ to_dto updated (roles_of db context.tenant.tenant_id target.id)

pub change_membership_status-Meets :
    (context : RequestContext) (command : MembershipCommand) (id : String) (db : Db)
    → Meets
        (Refused context db)
        (StatusChanged context command id db)
        (change_membership_status context command id)
        db
unfolding change_membership_status
change_membership_status-Meets context command id db =
    Meets-reads (λ _. (id == context.tenant.membership_id) ≡ false) _ _
      (refuse_self-Meets context command id db (id == context.tenant.membership_id))
      λ _ not_self. Meets-query _ _ (
        Meets-reads _ _ _ (lock_target-Meets context id db) λ target found. Meets-query _ _ (
          Meets-check _ _ _ (λ _ durable. cc)
            λ managed.
              Meets-reads _ _ _ (refuse_missing-Meets context command target.id _ db _)
                λ _ authorized.
                  Meets-check _ _ _ (λ _ durable. cc)
                    λ from_allowed.
                      Meets-attempt _ _ _ (λ v after ran durable. cc (updating_transient v))
                        λ new mid ran.
                          Meets-reads _ _ _ (or_failed-Meets context db mid new) λ updated is_new.
                            Meets-audit _ _ (
                              Meets-return _ (record {
                                target = target;
                                updated = updated;
                                mid = mid;
                                row = _;
                                not_self = not_self;
                                found = found;
                                managed = managed;
                                authorized = authorized;
                                from_allowed = from_allowed;
                                ran = ran ∙ ap (λ k. (ok k, mid)) is_new;
                                audited = refl;
                                is_success = refl;
                                by_actor = refl;
                                as_action = refl;
                                on_target = refl;
                                replied = refl;
                              }))))
