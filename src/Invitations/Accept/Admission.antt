-- ===== src/Invitations/Accept/Admission.antt =====
-- What the checks of an invitation that was locked leave: admission, refusal or expiry.
use taller_mecario_b.Base.{
  String, Bool, true, false, not, List, [], ◌∷◌, ◌++◌, some, find, find-map, leb, ◌==◌, string_key,
  nat_key, map, ◌≡◌, refl, ◌∙◌, ap, arith, ==_sound, ==_refl, inl, inr, not-true, if◌then◌else◌,
}
use taller_mecario_b.Base.Steps.Meets.{
  Meets, Meets-return, Meets-throw, Meets-modify, Meets-writes, if-Meets,
}
use taller_mecario_b.Invitations.Store.{
  Invitation, pending, accepted, expired, revoked, invitation_status_key, User, AuditRow, Db,
}
use taller_mecario_b.Invitations.Statements.{update_invitations, with_invitations}
use taller_mecario_b.Invitations.Statements.Effects.{put, update_invitations-Effect}
use taller_mecario_b.Invitations.Request.{insert_audit, expired_audit, set_expired}
use taller_mecario_b.Invitations.Joining.{AcceptInput, is_locked}
use taller_mecario_b.Invitations.Accept.{raised, expire_invitation, admit}
use taller_mecario_b.Invitations.Accept.Outcomes.{
  Own, by_statement, expired_before, by_check, provisioned, Failed,
}

-- What an admitted acceptance found in its row.
pub record Admitted (input : AcceptInput) (i : Invitation) : Type 0 where
  pub own_email : i.email_normalized ≡ input.profile.email
  pub was_pending : i.status ≡ pending
  pub in_time : leb i.expires_at input.read_at ≡ false

pub is_locked_self : (i : Invitation) → i.status ≡ pending → is_locked i i ≡ true
is_locked_self i was = rw (==_refl i.id, ==_refl i.tenant_id, was) refl

put-token :
    (token_hash : String) (i : Invitation) (set : Invitation → Invitation)
    → ((k : Invitation) → (set k).token_hash ≡ k.token_hash)
    → (j : Invitation)
    → ((put (is_locked i) set j).token_hash == token_hash) ≡ (j.token_hash == token_hash)
put-token token_hash i set keeps j = by_test (is_locked i j)
  where
    by_test :
        (b : Bool)
        → ((if b then set j else j).token_hash == token_hash) ≡ (j.token_hash == token_hash)
    by_test true = rw (keeps j) refl
    by_test false = refl

-- The row of a token after an update of the locked row.
pub find-put :
    (token_hash : String) (i : Invitation) (set : Invitation → Invitation) (rows : List Invitation)
    → ((k : Invitation) → (set k).token_hash ≡ k.token_hash)
    → i.status ≡ pending
    → find (λ (j : Invitation). j.token_hash == token_hash) rows ≡ some i
    → find (λ (j : Invitation). j.token_hash == token_hash) (map (put (is_locked i) set) rows)
      ≡ some (set i)
find-put token_hash i set rows keeps was found =
    find-map (λ (j : Invitation). j.token_hash == token_hash) (put (is_locked i) set) rows
      (put-token token_hash i set keeps) found
    ∙ rw (is_locked_self i was) refl

module _ (input : AcceptInput) (db : Db) (user_id : String) (users : List User)
    (audits : List AuditRow) (own_user : Own input db user_id users audits) where
  abbrev base : Db
  base = provisioned db users audits

  module _ (i : Invitation)
      (found : find (λ (j : Invitation). j.token_hash == input.token_hash) db.invitations
        ≡ some i) where
    pub admit-Meets :
        Meets
          (Failed input db)
          (λ _ after. (after ≡ base) × Admitted input i)
          (admit input i user_id)
          base
    unfolding admit insert_audit expire_invitation
    admit-Meets =
        if-Meets (not (i.email_normalized == input.profile.email))
          (λ other. Meets-modify _ _ (
            Meets-throw _ (record {
              i = i;
              found = found;
              user_id = user_id;
              users = users;
              audits = audits;
              own_user = own_user;
              why = inl (refl, not-true other, refl);
            })))
          (λ own.
            if-Meets (i.status == accepted) (λ h. Meets-throw _ (by_check _ refl))
              λ not_accepted.
                if-Meets (i.status == revoked) (λ h. Meets-throw _ (by_check _ refl))
                  λ not_revoked.
                    if-Meets (i.status == expired)
                      (λ h. Meets-throw _ (expired_before i found (is_expired h)))
                      λ not_expired.
                        if-Meets (leb i.expires_at input.read_at)
                          (λ late. expiry (pending_left not_accepted not_revoked not_expired) late)
                          (λ in_time. Meets-return tt (
                            refl,
                            record {
                              own_email =
                                  ==_sound i.email_normalized input.profile.email (not_not own);
                              was_pending = pending_left not_accepted not_revoked not_expired;
                              in_time = in_time;
                            },
                          )))
      where
        not_not : {b : Bool} → not b ≡ false → b ≡ true
        not_not {b} h = ground arith

        is_expired : (i.status == expired) ≡ true → i.status ≡ expired
        is_expired h = ground arith

        pending_left :
            (i.status == accepted) ≡ false
            → (i.status == revoked) ≡ false
            → (i.status == expired) ≡ false
            → i.status ≡ pending
        pending_left a b c = ground arith

        expiry :
            i.status ≡ pending
            → leb i.expires_at input.read_at ≡ true
            → Meets
                (Failed input db)
                (λ _ after. (after ≡ base) × Admitted input i)
                (expire_invitation input i)
                base
        expiry was late =
            Meets-writes
              (λ rows t.
                t ≡ with_invitations base (map (put (is_locked i) set_expired) base.invitations))
              (update_invitations input.written_at (is_locked i) set_expired) raised _
              (λ v after h. by_statement v)
              (λ rows after h. (
                after,
                refl,
                (update_invitations-Effect base input.written_at (is_locked i) set_expired h).table,
              ))
              (λ rows t it. Meets-modify _ _ (
                Meets-throw _ (record {
                  i = i;
                  found = found;
                  user_id = user_id;
                  users = users;
                  audits = audits;
                  own_user = own_user;
                  why = inr (
                    refl,
                    was,
                    late,
                    ap
                        (λ (d : Db). record d {
                          audit_logs =
                              d.audit_logs ++ expired_audit input.meta "invitation_accept" i ∷ [];
                        })
                        it,
                  );
                })))
