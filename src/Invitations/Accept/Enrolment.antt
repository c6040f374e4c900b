-- ===== src/Invitations/Accept/Enrolment.antt =====
-- What the writes of an admitted acceptance leave: the membership, its role and the accepted row.
use taller_mecario_b.Base.{
  String, false, ◌&&◌, List, [], ◌∷◌, ◌++◌, some, ok, any, find, ◌==◌, string_key, nat_key, ◌≡◌,
  refl, ◌∙◌, ap, subst, arith, not-true,
}
use taller_mecario_b.Base.Steps.Meets.{
  Meets, Meets-return, Meets-check, Meets-query, Meets-modify, Meets-writes, or_throw-then,
}
use taller_mecario_b.Authz.Roles.{RoleCode, role_text, role_codes}
use taller_mecario_b.Members.Store.{Membership, MemberRole}
use taller_mecario_b.Invitations.Store.{
  Invitation, invitation_status_key, User, AuditRow, Db, Workshop,
}
use taller_mecario_b.Invitations.Statements.Effects.{
  Effect, update_invitations-Effect, lifecycle-accepted,
}
use taller_mecario_b.Invitations.Request.{insert_audits}
use taller_mecario_b.Invitations.Joining.{
  AcceptInput, insert_membership, insert_membership_role, new_membership, new_role, is_locked,
  set_accepted, acceptance_audits,
}
use taller_mecario_b.Invitations.Accept.{raised, join}
use taller_mecario_b.Invitations.Accept.Outcomes.{
  Own, by_statement, by_check, provisioned, Joined, Failed,
}
use taller_mecario_b.Invitations.Accept.Admission.{Admitted, is_locked_self, find-put}

insert_membership-after :
    (row : Membership) (db after : Db) {u : Unit {0}}
    → insert_membership row db ≡ (ok u, after)
    → after ≡ record db { memberships = db.memberships ++ row ∷ [] }
unfolding insert_membership
insert_membership-after row db after h = ground arith

insert_membership_role-after :
    (row : MemberRole) (db after : Db) {u : Unit {0}}
    → insert_membership_role row db ≡ (ok u, after)
    → after ≡ record db { member_roles = db.member_roles ++ row ∷ [] }
unfolding insert_membership_role
insert_membership_role-after row db after h = ground arith

module _ (input : AcceptInput) (db : Db) (user_id : String) (users : List User)
    (audits : List AuditRow) (own_user : Own input db user_id users audits) where
  abbrev base : Db
  base = provisioned db users audits

  module _ (i : Invitation)
      (found : find (λ (j : Invitation). j.token_hash == input.token_hash) db.invitations
        ≡ some i) where
    pub join-Meets :
        (role : RoleCode)
        → Admitted input i
        → find (λ r. role_text r == i.role_code) role_codes ≡ some role
        → Meets (Failed input db) (Joined input db) (join input i user_id role) base
    unfolding join insert_audits
    join-Meets role admitted role_of = Meets-query _ _ (
        Meets-check _ _ _ (λ h. by_check _ refl)
          λ no_member. Meets-query _ _ (
            or_throw-then _ _ (by_check _ refl) λ workshop at_workshop.
              Meets-writes (λ done t. t ≡ with_member) _ raised _ (λ v after h. by_statement v)
                (λ done after h. (after, refl, insert_membership-after _ base after h))
                λ done s1 at1.
                  Meets-writes (λ done t. t ≡ with_role) _ raised _ (λ v after h. by_statement v)
                    (λ done after h. (
                      after,
                      refl,
                      insert_membership_role-after _ s1 after h
                          ∙ ap
                              (λ (d : Db). record d {
                                member_roles = d.member_roles ++ role_row ∷ [];
                              })
                              at1,
                    ))
                    λ done s2 at2.
                      Meets-writes
                        (λ rows t.
                          Effect input.written_at (is_locked i) (set_accepted input user_id) s2 rows
                            t)
                        _ raised _ (λ v after h. by_statement v)
                        (λ rows after h. (after, refl, update_invitations-Effect s2 _ _ _ h))
                        λ rows s3 effect.
                          Meets-check _ _ _ (λ h. by_check _ refl)
                            λ one. Meets-modify _ _ (
                              Meets-return _ (
                                joined workshop _
                                  (subst
                                    (λ d.
                                      Effect input.written_at (is_locked i)
                                        (set_accepted input user_id) d rows s3)
                                    at2 effect)
                                  (not-true no_member)))))
      where
        role_row : MemberRole
        role_row = new_role input i role

        with_member : Db
        with_member = record base {
          memberships = base.memberships ++ new_membership input i user_id ∷ [];
        }

        with_role : Db
        with_role = record with_member { member_roles = base.member_roles ++ role_row ∷ [] }

        joined :
            (workshop : Workshop) {rows : List Invitation} (s3 : Db)
            → Effect input.written_at (is_locked i) (set_accepted input user_id) with_role rows s3
            → any
                (λ (m : Membership). m.tenant_id == i.tenant_id && m.user_id == user_id)
                db.memberships
              ≡ false
            → Joined input db
                (record {
                  membership_id = input.membership_id;
                  tenant_id = i.tenant_id;
                  roles = role ∷ [];
                  workshop = workshop;
                })
                (record s3 { audit_logs = s3.audit_logs ++ acceptance_audits input i user_id role })
        joined workshop s3 effect alone =
            let (free, in_time) =
              lifecycle-accepted with_role input.written_at i (set_accepted input user_id i) refl (
                effect.checked (λ (j : Invitation). j.token_hash == input.token_hash) i found
                  (is_locked_self i admitted.was_pending)) in
            record {
              i = i;
              user_id = user_id;
              role = role;
              found = found;
              own_email = admitted.own_email;
              was_pending = admitted.was_pending;
              in_time = (admitted.in_time, in_time);
              not_leased = free;
              not_member = alone;
              role_of = role_of;
              memberships_after = ap (λ (d : Db). d.memberships) effect.table;
              roles_after = ap (λ (d : Db). d.member_roles) effect.table;
              accepted_after =
                  ap
                    (λ (d : Db).
                      find (λ (j : Invitation). j.token_hash == input.token_hash) d.invitations)
                    effect.table
                  ∙ find-put input.token_hash i (set_accepted input user_id) db.invitations
                      (λ k. refl) admitted.was_pending found;
              users = users;
              audits = audits;
              own_user = own_user;
              tables =
                  ap
                    (λ (d : Db). record d {
                      audit_logs = d.audit_logs ++ acceptance_audits input i user_id role;
                    })
                    effect.table;
              replied = (refl, refl, refl);
            }
