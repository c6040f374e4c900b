-- ===== src/Invitations/Accept/Provisioning.antt =====
-- What the provisioning of the accepting user leaves in the tables.
use taller_mecario_b.Base.{
  String, Bool, true, false, not, [], ◌∷◌, ◌++◌, Option, none, some, Result, any, find, ◌==◌,
  string_key, nat_key, ok, err, ◌≡◌, refl, sym, subst, arith, if◌then◌else◌,
}
use taller_mecario_b.Base.Steps.Meets.{Meets, Meets-check, Meets-writes, or_throw-Meets}
use taller_mecario_b.Invitations.Store.{
  invitation_status_key, User, UserStatus, active, disabled, Db, Violation, users_pkey,
  bootstrap_user_argument_invalid,
}
use taller_mecario_b.Invitations.Users.{
  Provisioned, provision_user, provision_for, valid_arguments, is_barred, is_user_of, id_of,
  new_user, provisioned_audit,
}
use taller_mecario_b.Invitations.Joining.{AcceptInput}
use taller_mecario_b.Invitations.Accept.{raised, accepting_user, is_enabled}
use taller_mecario_b.Invitations.Accept.Outcomes.{
  known_user, provisioned_user, by_statement, by_check, Provisioning, Failed,
}

module _ (input : AcceptInput) (db : Db) where
  -- What provisioning gives: a user that is not active, or the user of the identity.
  Given : Result Violation Provisioned × Db → Type 0
  Given (err v, after) = Unit {0}
  Given (ok p, after) =
      is_enabled p.status ≡ true
      → (user_id : String) → p.user_id ≡ some user_id
      → Provisioning input db user_id after

  provision_for-Given :
      (own : Option User)
      → find (is_user_of input.identity) db.users ≡ own
      → any (is_barred input.identity) db.identity_states ≡ false
      → Given (
          provision_for input.identity input.profile input.proposed_user_id input.meta.request_id
            own db)
  unfolding Given
  provision_for-Given (some u) found free = λ enabled user_id same.
      let it : u.id ≡ user_id = cc in
      (db.users, (db.audit_logs, refl, known_user u free found it (is_active u.status enabled)))
    where
      is_active : (s : UserStatus) → is_enabled s ≡ true → s ≡ active
      is_active s h = ground arith
  provision_for-Given none found free =
      by_id (any (λ (u : User). u.id == input.proposed_user_id) db.users)
    where
      by_id :
          (b : Bool)
          → Given (
              if b then (err users_pkey, db) else (
                ok (record { user_id = some input.proposed_user_id; status = active }),
                record db {
                  users =
                      db.users ++ new_user input.identity input.profile input.proposed_user_id ∷ [];
                  audit_logs =
                      db.audit_logs
                      ++ provisioned_audit input.identity input.proposed_user_id
                          input.meta.request_id
                        ∷ [];
                },
              ))
      by_id true = tt
      by_id false = λ enabled user_id same.
          let it : input.proposed_user_id ≡ user_id = cc in
          (_, (_, refl, provisioned_user free found (sym it)))

  provision_user-Given :
      Given (
        provision_user input.identity input.profile input.proposed_user_id input.meta.request_id db)
  unfolding provision_user Given
  provision_user-Given =
      by_test (not (valid_arguments input.identity input.profile input.meta.request_id))
        (any (is_barred input.identity) db.identity_states) refl
    where
      by_test :
          (invalid barred : Bool)
          → any (is_barred input.identity) db.identity_states ≡ barred
          → Given (
              if invalid
              then (err bootstrap_user_argument_invalid, db)
              else if barred
              then (
                ok (record {
                  user_id = id_of (find (is_user_of input.identity) db.users);
                  status = disabled;
                }),
                db,
              )
              else provision_for input.identity input.profile input.proposed_user_id
                  input.meta.request_id
                  (find (is_user_of input.identity) db.users)
                  db)
      by_test true barred h = tt
      by_test false true h = λ enabled user_id same. cc
      by_test false false h = provision_for-Given (find (is_user_of input.identity) db.users) refl h

  pub accepting_user-Provisioning :
      Meets
        (Failed input db)
        (λ user_id after. Provisioning input db user_id after)
        (accepting_user input)
        db
  unfolding accepting_user Given
  accepting_user-Provisioning =
      Meets-writes (λ user after. Given (ok user, after))
        (provision_user input.identity input.profile input.proposed_user_id input.meta.request_id)
        raised _ (λ v after h. by_statement v)
        (λ user after h. (after, refl, subst Given h provision_user-Given))
        (λ user after given.
          Meets-check _ _ _ (λ h. by_check _ refl)
            (λ enabled.
              or_throw-Meets _ (λ h. by_check _ refl) (λ user_id same. given enabled user_id same)))
