-- ===== src/Invitations/Requests/Keeping.antt =====
-- Each command on invitations keeps every fact that the statements on invitations keep.
use taller_mecario_b.Base.{
  ℕ, String, Bool, true, false, not, List, [], ◌∷◌, Option, none, some, Result, ok, err, any, find,
  leb, ◌==◌, ◌||◌, string_key, ◌≡◌, refl, if◌then◌else◌, arith,
}
use taller_mecario_b.Base.Steps.{Step, or_throw}
use taller_mecario_b.Base.Steps.Keeps.{
  Keeps, Keeps-return, Keeps-throw, Keeps-check, Keeps-query, Keeps-modify, Keeps-attempt,
  Keeps-bind,
}
use taller_mecario_b.Authz.Roles.{RoleCode}
use taller_mecario_b.Outbox.Store.{OutboxRow}
use taller_mecario_b.Outbox.Publish.{
  OutboxEventInput, PublishError, PublishResult, publish_outbox_event,
}
use taller_mecario_b.Members.Store.{Membership, MemberRole}
use taller_mecario_b.Invitations.Store.{
  Invitation, accepted, expired, revoked, invitation_status_key, User, AuditRow, Db,
  InvitationError, api, role_not_allowed, user_disabled, internal, database, disabled,
  bootstrap_user_argument_invalid,
}
use taller_mecario_b.Invitations.Statements.Changes.{Kept}
use taller_mecario_b.Invitations.Request.{
  parse_role, to_dto, insert_audit, insert_audits, RequestContext, can_assign_role,
  require_assignable, set_expired, lifted,
}
use taller_mecario_b.Invitations.Create.{
  Library, ApiConfig, CreateInput, Fresh, create_invitation, publish, published,
}
use taller_mecario_b.Invitations.Revoke.{revoke_invitation, revoke_row, revoke_pending, set_revoked}
use taller_mecario_b.Invitations.Users.{
  id_of, Identity, Profile, provision_user, provision_for, valid_arguments, is_barred, is_user_of,
}
use taller_mecario_b.Invitations.Joining.{
  AcceptInput, AcceptResult, lock_invitation, insert_membership, insert_membership_role,
  set_accepted,
}
use taller_mecario_b.Invitations.Requests.{
  Request, create, revoke, accept, handle, handle_all, finalize,
}
use taller_mecario_b.Invitations.Accept.{
  Thrown, accepting_user, expire_invitation, admit, join, accept_body, accept_invitation, settle,
  commit_then_throw, thrown,
}

or_throw-Keeps : {S E A : Type 0} {P : S → Type 0} (e : E) (o : Option A) → Keeps P (or_throw e o)
or_throw-Keeps e none = Keeps-throw e
or_throw-Keeps e (some a) = Keeps-return a

lifted-Keeps :
    {A F : Type 0} {P : Db → Type 0} (caught : F → InvitationError) (r : Result F A)
    → Keeps P (lifted caught r)
lifted-Keeps caught (err e) = Keeps-throw _
lifted-Keeps caught (ok a) = Keeps-return a

parse_role-Keeps : {P : Db → Type 0} (value : String) → Keeps P (parse_role value)
unfolding parse_role
parse_role-Keeps value = or_throw-Keeps _ _

to_dto-Keeps : {P : Db → Type 0} (row : Invitation) (b : Bool) → Keeps P (to_dto row b)
unfolding to_dto parse_role
to_dto-Keeps row b = Keeps-bind (parse_role-Keeps row.role_code) (λ role. Keeps-return _)

lock_invitation-Keeps :
    {P : Db → Type 0} (times_out : Bool) (id tenant_id token_hash : String)
    → Keeps P (lock_invitation times_out id tenant_id token_hash)
unfolding lock_invitation
lock_invitation-Keeps true id tenant_id token_hash = record { kept = λ s p. p }
lock_invitation-Keeps false id tenant_id token_hash = record { kept = λ s p. p }

if-Keeps :
    {S E A : Type 0} {P : S → Type 0} (b : Bool) {x y : Step S E A}
    → Keeps P x
    → Keeps P y
    → Keeps P (if b then x else y)
if-Keeps true x y = x
if-Keeps false x y = y

insert_membership-invitations :
    (row : Membership) (db : Db) → (insert_membership row db).1.invitations ≡ db.invitations
unfolding insert_membership
insert_membership-invitations row db = ground arith

insert_membership_role-invitations :
    (row : MemberRole) (db : Db) → (insert_membership_role row db).1.invitations ≡ db.invitations
unfolding insert_membership_role
insert_membership_role-invitations row db = ground arith

provision_for-invitations :
    (identity : Identity) (profile : Profile) (proposed request_id : String) (own : Option User)
    (db : Db)
    → (provision_for identity profile proposed request_id own db).1.invitations ≡ db.invitations
provision_for-invitations identity profile proposed request_id none db = ground arith
provision_for-invitations identity profile proposed request_id (some u) db = refl

provision_user-invitations :
    (identity : Identity) (profile : Profile) (proposed request_id : String) (db : Db)
    → (provision_user identity profile proposed request_id db).1.invitations ≡ db.invitations
unfolding provision_user
provision_user-invitations identity profile proposed request_id db =
    by_tests (not (valid_arguments identity profile request_id))
      (any (is_barred identity) db.identity_states)
  where
    by_tests :
        (invalid barred : Bool)
        → (if invalid
            then (err bootstrap_user_argument_invalid, db)
            else if barred
            then (
              ok (record {
                user_id = id_of (find (is_user_of identity) db.users);
                status = disabled;
              }),
              db,
            )
            else provision_for identity profile proposed request_id
                (find (is_user_of identity) db.users)
                db).1.invitations
          ≡ db.invitations
    by_tests true barred = refl
    by_tests false true = refl
    by_tests false false =
        provision_for-invitations identity profile proposed request_id
          (find (is_user_of identity) db.users) db

module _ {P : Db → Type 0} (law : Kept P) where
  insert_audit-Keeps : {E : Type 0} (row : AuditRow) → Keeps {E = E} P (insert_audit row)
  unfolding insert_audit
  insert_audit-Keeps row = Keeps-modify _ (λ s. law.others s _ refl)

  insert_audits-Keeps : {E : Type 0} (rows : List AuditRow) → Keeps {E = E} P (insert_audits rows)
  unfolding insert_audits
  insert_audits-Keeps rows = Keeps-modify _ (λ s. law.others s _ refl)

  require_assignable-Keeps :
      (context : RequestContext) (action : String) (id : Option String) (role : RoleCode)
      → Keeps P (require_assignable context action id role)
  require_assignable-Keeps context action id role =
      if-Keeps (can_assign_role context.permissions role) (Keeps-return tt)
        (Keeps-bind (insert_audit-Keeps _) (λ _. Keeps-throw _))

  publish-Keeps : (input : OutboxEventInput) (now : ℕ) → Keeps P (publish input now)
  unfolding publish
  publish-Keeps input now = record {
    kept = λ s. law.others s _ (same s (publish_outbox_event input now s.outbox_events));
  }
    where
      same :
          (s : Db) (r : Result PublishError PublishResult × List OutboxRow)
          → (published s r).1.invitations ≡ s.invitations
      same s (r, rows) = refl

  create_invitation-Keeps :
      (library : Library) (config : ApiConfig) (context : RequestContext) (input : CreateInput)
      (fresh : Fresh)
      → Keeps P (create_invitation library config context input fresh)
  unfolding create_invitation
  create_invitation-Keeps library config context input fresh =
      Keeps-bind (parse_role-Keeps input.role) λ role.
        Keeps-bind (require_assignable-Keeps context _ none role) λ _.
          Keeps-bind (Keeps-query _) λ configured. Keeps-bind (Keeps-check _ _) λ _.
            Keeps-bind (Keeps-attempt _ (law.updates _ _ set_expired (λ i. refl))) λ stale.
              Keeps-bind (insert_audits-Keeps _) λ _. Keeps-bind (lifted-Keeps _ _) λ token.
                Keeps-bind (Keeps-attempt _ (law.inserts _ _)) λ created.
                  Keeps-bind (Keeps-query _) λ found.
                    Keeps-bind (or_throw-Keeps _ found) λ workshop.
                      Keeps-bind (lifted-Keeps _ _) λ delivery.
                        Keeps-bind (Keeps-attempt _ (publish-Keeps _ _))
                          λ sent. Keeps-bind (insert_audit-Keeps _) λ _. to_dto-Keeps created false

  revoke_pending-Keeps :
      (context : RequestContext) (row : Invitation) (role : RoleCode) (now : ℕ)
      → Keeps P (revoke_pending context row role now)
  unfolding revoke_pending
  revoke_pending-Keeps context row role now =
      Keeps-bind
        (Keeps-attempt _
          (law.updates _ _ (set_revoked context.tenant.membership_id now) (λ i. refl)))
        λ rows.
          Keeps-bind (or_throw-Keeps _ _)
            λ new. Keeps-bind (insert_audit-Keeps _) λ _. to_dto-Keeps new false

  revoke_row-Keeps :
      (context : RequestContext) (row : Invitation) (role : RoleCode) (read_at written_at : ℕ)
      → Keeps P (revoke_row context row role read_at written_at)
  unfolding revoke_row
  revoke_row-Keeps context row role read_at written_at =
      if-Keeps (row.status == revoked) (to_dto-Keeps row _) (
        if-Keeps (row.status == accepted) (Keeps-throw _) (
          if-Keeps (row.status == expired || leb row.expires_at read_at) (Keeps-throw _)
            (revoke_pending-Keeps context row role written_at)))

  revoke_invitation-Keeps :
      (context : RequestContext) (id : String) (read_at written_at : ℕ)
      → Keeps P (revoke_invitation context id read_at written_at)
  unfolding revoke_invitation
  revoke_invitation-Keeps context id read_at written_at = Keeps-bind (Keeps-query _) λ found.
      Keeps-bind (or_throw-Keeps _ found) λ row. Keeps-bind (parse_role-Keeps row.role_code) λ role.
        Keeps-bind (require_assignable-Keeps context _ (some row.id) role)
          λ _. revoke_row-Keeps context row role read_at written_at

  provision_user-Keeps :
      (identity : Identity) (profile : Profile) (proposed request_id : String)
      → Keeps P (provision_user identity profile proposed request_id)
  provision_user-Keeps identity profile proposed request_id = record {
    kept = λ s. law.others s _ (provision_user-invitations identity profile proposed request_id s);
  }

  insert_membership-Keeps : (row : Membership) → Keeps P (insert_membership row)
  insert_membership-Keeps row = record {
    kept = λ s. law.others s _ (insert_membership-invitations row s);
  }

  insert_membership_role-Keeps : (row : MemberRole) → Keeps P (insert_membership_role row)
  insert_membership_role-Keeps row = record {
    kept = λ s. law.others s _ (insert_membership_role-invitations row s);
  }

  accepting_user-Keeps : (input : AcceptInput) → Keeps P (accepting_user input)
  unfolding accepting_user
  accepting_user-Keeps input =
      Keeps-bind (Keeps-attempt _ (provision_user-Keeps _ _ _ _))
        λ provisioned. Keeps-bind (Keeps-check _ _) λ _. or_throw-Keeps _ _

  expire_invitation-Keeps :
      (input : AcceptInput) (i : Invitation) → Keeps P (expire_invitation input i)
  unfolding expire_invitation
  expire_invitation-Keeps input i =
      Keeps-bind (Keeps-attempt _ (law.updates _ _ set_expired (λ j. refl)))
        λ rows. Keeps-bind (insert_audit-Keeps _) λ _. Keeps-throw _

  admit-Keeps :
      (input : AcceptInput) (i : Invitation) (user_id : String) → Keeps P (admit input i user_id)
  unfolding admit
  admit-Keeps input i user_id =
      if-Keeps (not (i.email_normalized == input.profile.email))
        (Keeps-bind (insert_audit-Keeps _) (λ _. Keeps-throw _))
        (if-Keeps (i.status == accepted) (Keeps-throw _) (
          if-Keeps (i.status == revoked) (Keeps-throw _) (
            if-Keeps (i.status == expired) (Keeps-throw _) (
              if-Keeps (leb i.expires_at input.read_at) (expire_invitation-Keeps input i)
                (Keeps-return tt)))))

  join-Keeps :
      (input : AcceptInput) (i : Invitation) (user_id : String) (role : RoleCode)
      → Keeps P (join input i user_id role)
  unfolding join
  join-Keeps input i user_id role = Keeps-bind (Keeps-query _) λ existing.
      Keeps-bind (Keeps-check _ _) λ _. Keeps-bind (Keeps-query _) λ found.
        Keeps-bind (or_throw-Keeps _ found) λ workshop.
          Keeps-bind (Keeps-attempt _ (insert_membership-Keeps _)) λ _.
            Keeps-bind (Keeps-attempt _ (insert_membership_role-Keeps _)) λ _.
              Keeps-bind
                (Keeps-attempt _ (law.updates _ _ (set_accepted input user_id) (λ j. refl)))
                λ rows.
                  Keeps-bind (Keeps-check _ _)
                    λ _. Keeps-bind (insert_audits-Keeps _) λ _. Keeps-return _

  accept_body-Keeps : (input : AcceptInput) → Keeps P (accept_body input)
  unfolding accept_body
  accept_body-Keeps input = Keeps-bind (accepting_user-Keeps input) λ user_id.
      Keeps-bind (Keeps-query _) λ found. Keeps-bind (or_throw-Keeps _ found) λ resolved.
        Keeps-bind (Keeps-attempt _ (lock_invitation-Keeps _ _ _ _)) λ locked.
          Keeps-bind (or_throw-Keeps _ locked) λ i.
            Keeps-bind (Keeps-attempt _ (parse_role-Keeps i.role_code))
              λ role. Keeps-bind (admit-Keeps input i user_id) λ _. join-Keeps input i user_id role

  settled :
      (fails : Bool) (before : Db) (r : Result Thrown AcceptResult × Db)
      → P before
      → P r.1
      → P (settle fails before r).1
  settled false before (ok result, after) p q = q
  settled true before (ok result, after) p q = p
  settled false before (err (commit_then_throw code), after) p q = q
  settled true before (err (commit_then_throw code), after) p q = p
  settled false before (err (thrown e), after) p q = p
  settled true before (err (thrown e), after) p q = p

  finalized :
      {A : Type 0} (before : Db) (r : Result InvitationError A × Db)
      → P before
      → P r.1
      → P (finalize before r)
  finalized before (ok reply, after) p q = q
  finalized before (err role_not_allowed, after) p q = q
  finalized before (err (api code), after) p q = p
  finalized before (err user_disabled, after) p q = p
  finalized before (err (internal name), after) p q = p
  finalized before (err (database v), after) p q = p

  pub handle-Keeps : (r : Request) (db : Db) → P db → P (handle r db)
  unfolding handle accept_invitation
  handle-Keeps (create library config context input fresh) db p =
      finalized db _ p ((create_invitation-Keeps library config context input fresh).kept db p)
  handle-Keeps (revoke context id read_at written_at) db p =
      finalized db _ p ((revoke_invitation-Keeps context id read_at written_at).kept db p)
  handle-Keeps (accept input) db p =
      settled input.commit_fails db _ p ((accept_body-Keeps input).kept db p)

  pub handle_all-Keeps : (rs : List Request) (db : Db) → P db → P (handle_all rs db)
  unfolding handle_all
  handle_all-Keeps [] db p = p
  handle_all-Keeps (r ∷ rs) db p = handle_all-Keeps rs (handle r db) (handle-Keeps r db p)
