-- ===== src/Invitations/Accept/Body.antt =====
-- What the body of an acceptance leaves, step by step.
use taller_mecario_b.Base.{
  Bool, true, false, ◌&&◌, List, Option, none, some, ok, find, find_sound, find-narrower, ◌==◌,
  string_key, nat_key, ◌≡◌, refl, sym, ◌∙◌, subst, arith, and_true, ==_refl,
}
use taller_mecario_b.Base.Steps.{return, throw, attempt, or_throw}
use taller_mecario_b.Base.Steps.Meets.{
  Meets, Meets-bind, Meets-query, Meets-writes, Meets-at, or_throw-then,
}
use taller_mecario_b.Authz.Roles.{RoleCode, role_text, role_codes}
use taller_mecario_b.Invitations.Store.{
  Invitation, invitation_status_key, User, AuditRow, Db, internal,
}
use taller_mecario_b.Invitations.Request.{parse_role}
use taller_mecario_b.Invitations.Joining.{AcceptInput, lock_invitation, resolve_invitation}
use taller_mecario_b.Invitations.Accept.{thrown, raised, accept_body}
use taller_mecario_b.Invitations.Accept.Outcomes.{
  by_statement, by_check, provisioned, Provisioning, Joined, Failed,
}
use taller_mecario_b.Invitations.Accept.Admission.{admit-Meets}
use taller_mecario_b.Invitations.Accept.Provisioning.{accepting_user-Provisioning}
use taller_mecario_b.Invitations.Accept.Enrolment.{join-Meets}

module _ (input : AcceptInput) (db : Db) (users : List User) (audits : List AuditRow) where
  abbrev base : Db
  base = provisioned db users audits

  resolve_invitation-found :
      (i : Invitation)
      → resolve_invitation input.token_hash base ≡ some i
      → find (λ (j : Invitation). j.token_hash == input.token_hash) db.invitations ≡ some i
  unfolding resolve_invitation
  resolve_invitation-found i h = ground arith

  -- The row that is locked is the row that the token resolved to.
  lock_invitation-found :
      (i : Invitation) (locked : Option Invitation) (after : Db)
      → find (λ (j : Invitation). j.token_hash == input.token_hash) db.invitations ≡ some i
      → lock_invitation input.lock_times_out i.id i.tenant_id input.token_hash base
        ≡ (ok locked, after)
      → (after ≡ base) × (locked ≡ some i)
  unfolding lock_invitation
  lock_invitation-found i locked after found h = by_lock input.lock_times_out h
    where
      by_lock :
          (b : Bool)
          → lock_invitation b i.id i.tenant_id input.token_hash base ≡ (ok locked, after)
          → (after ≡ base) × (locked ≡ some i)
      by_lock true h = cc
      by_lock false h =
          let narrow : find
                (λ (j : Invitation).
                  j.id == i.id && (j.tenant_id == i.tenant_id && j.token_hash == input.token_hash))
                db.invitations
              ≡ some i =
            find-narrower (λ (j : Invitation). j.token_hash == input.token_hash) _ db.invitations
              (λ j hit. (and_true (and_true {a = j.id == i.id} hit).1).1) found
              (rw
                (
                  ==_refl i.id,
                  ==_refl i.tenant_id,
                  find_sound (λ (j : Invitation). j.token_hash == input.token_hash) db.invitations
                      found,
                )
                refl) in
          let same_db : base ≡ after = cc in
          let same_row : locked ≡ some i = cc in (sym same_db, same_row)

module _ (input : AcceptInput) (db : Db) where
  pub accept_body-Meets : Meets (Failed input db) (Joined input db) (accept_body input) db
  unfolding accept_body parse_role attempt return throw
  accept_body-Meets =
      Meets-bind (λ user_id after. Provisioning input db user_id after) _ _
        (accepting_user-Provisioning input db)
        λ user_id after (users, (audits, at_base, own_user)). Meets-at at_base (
          Meets-query _ _ (
            or_throw-then _ _ (by_check _ refl) λ resolved at_resolved.
              let found = resolve_invitation-found input db users audits resolved at_resolved in
              Meets-writes
                (λ locked t. (t ≡ provisioned db users audits) × (locked ≡ some resolved)) _ raised
                _ (λ v after h. by_statement v)
                (λ locked after h. (
                  after,
                  refl,
                  lock_invitation-found input db users audits resolved locked after found h,
                ))
                λ locked t (at_t, at_row). Meets-at at_t (
                  or_throw-then _ locked (by_check _ refl) λ i at_locked.
                    let same_row : some resolved ≡ some i = sym at_row ∙ at_locked in
                    let it : resolved ≡ i = cc in
                    let found_i =
                      subst
                        (λ (j : Invitation).
                          find (λ (k : Invitation). k.token_hash == input.token_hash) db.invitations
                          ≡ some j)
                        it found in
                    Meets-bind
                      (λ role after.
                        (after ≡ provisioned db users audits)
                        × (find (λ r. role_text r == i.role_code) role_codes ≡ some role))
                      _ _ (parse_role-Meets (provisioned db users audits) i)
                      λ role s1 (at_s1, role_of). Meets-at at_s1 (
                        Meets-bind _ _ _
                          (admit-Meets input db user_id users audits own_user i found_i)
                          λ done s2 (at_s2, admitted). Meets-at at_s2 (
                            join-Meets input db user_id users audits own_user i found_i role
                              admitted role_of)))))
    where
      parse_role-Meets :
          (s : Db) (i : Invitation)
          → Meets
              (Failed input db)
              (λ role after.
                (after ≡ s) × (find (λ r. role_text r == i.role_code) role_codes ≡ some role))
              (attempt (parse_role i.role_code) thrown)
              s
      parse_role-Meets s i = by_role (find (λ r. role_text r == i.role_code) role_codes) refl
        where
          by_role :
              (o : Option RoleCode)
              → find (λ r. role_text r == i.role_code) role_codes ≡ o
              → Meets
                  (Failed input db)
                  (λ role after.
                    (after ≡ s) × (find (λ r. role_text r == i.role_code) role_codes ≡ some role))
                  (attempt (or_throw (internal "INVITATION_ROLE_UNKNOWN") o) thrown)
                  s
          by_role none h = record { at = by_check _ refl }
          by_role (some role) h = record { at = (refl, h) }
