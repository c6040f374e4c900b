-- ===== src/Invitations/Accept/Laws.antt =====
-- What an acceptance does, by its reply.
use taller_mecario_b.Base.{
  String, Bool, true, false, List, some, Result, ok, err, find, is_ok, ◌==◌, string_key, ◌≡◌, refl,
  sym, ap, subst, inl, inr, Bool-cases, ◌∙◌,
}
use taller_mecario_b.Base.Steps.Meets.{Outcome}
use taller_mecario_b.Invitations.Store.{
  Invitation, pending, invitation_status_key, Db, InvitationErrorCode, InvitationError, api,
  internal,
}
use taller_mecario_b.Invitations.Statements.Changes.{Fixed, Advanced, created, same, ended}
use taller_mecario_b.Invitations.Joining.{AcceptInput, AcceptResult, set_accepted}
use taller_mecario_b.Invitations.Accept.{
  Thrown, thrown, commit_then_throw, accept_body, accept_invitation, mapped, settle,
}
use taller_mecario_b.Invitations.Accept.Outcomes.{Joined, Durable, Rejected, Failed}
use taller_mecario_b.Invitations.Accept.Body.{accept_body-Meets}
use taller_mecario_b.Invitations.Requests.{Request, handle_all}
use taller_mecario_b.Invitations.Requests.History.{handle_all-Advanced}

pub accept_invitation-Joined :
    (input : AcceptInput) (db after : Db) (result : AcceptResult)
    → accept_invitation input db ≡ (ok result, after)
    → Joined input db result after
unfolding accept_invitation
accept_invitation-Joined input db after result h =
    by_end input.commit_fails (accept_body input db) (accept_body-Meets input db).at h
  where
    by_end :
        (fails : Bool) (r : Result Thrown AcceptResult × Db)
        → Outcome (Failed input db) (Joined input db) r
        → settle fails db r ≡ (ok result, after)
        → Joined input db result after
    by_end false (ok reply, s) joined h =
        let it : reply ≡ result = cc in
        let at : s ≡ after = cc in
        subst (λ d. Joined input db result d) at (subst (λ r. Joined input db r s) it joined)
    by_end true (ok reply, s) joined h = cc
    by_end false (err (commit_then_throw code), s) failed h = cc
    by_end true (err (commit_then_throw code), s) failed h = cc
    by_end false (err (thrown e), s) failed h = cc
    by_end true (err (thrown e), s) failed h = cc

-- How an acceptance ends that fails.
pub data Refused (input : AcceptInput) (db : Db) (e : InvitationError) (after : Db) : Type 0 where
  rolled_back :
      (cause : InvitationError)
      → Rejected input db cause
      → e ≡ mapped cause
      → after ≡ db
      → Refused input db e after
  not_committed :
      (reason : String)
      → input.commit_fails ≡ true
      → e ≡ internal reason
      → after ≡ db
      → Refused input db e after
  committed :
      (code : InvitationErrorCode)
      → input.commit_fails ≡ false
      → e ≡ api code
      → Durable input db code after
      → Refused input db e after

-- The row of a token stays where it has ended.
find-Advanced :
    (token_hash : String) {rows later : List Invitation} (i : Invitation)
    → Advanced rows later
    → (i.status == pending) ≡ false
    → find (λ (j : Invitation). j.token_hash == token_hash) rows ≡ some i
    → find (λ (j : Invitation). j.token_hash == token_hash) later ≡ some i
find-Advanced token_hash i (created later) over h = cc
find-Advanced token_hash i (same j {rows} p) over h =
    elim (Bool-cases (j.token_hash == token_hash)) [
      | inl hit ↦
          let first : some j ≡ some i = rw hit at h in let it : j ≡ i = cc in rw (hit, it) refl
      | inr miss ↦ rw miss (find-Advanced token_hash i p over (rw miss at h))
    ]
find-Advanced token_hash i (ended j k {rows} was alike not p) over h =
    let by_token : k.token_hash ≡ j.token_hash = sym (ap (λ (f : Fixed). f.token_hash) alike) in
    elim (Bool-cases (j.token_hash == token_hash)) [
      | inl hit ↦
          let first : some j ≡ some i = rw hit at h in
          let it : j ≡ i = cc in
          let still : (i.status == pending) ≡ true = rw (sym it, was) refl in
          let impossible : true ≡ false = sym still ∙ over in cc
      | inr miss ↦ rw (by_token, miss) (find-Advanced token_hash i p over (rw miss at h))
    ]

-- A token is accepted at most once: after an acceptance of it, whatever requests on invitations come
-- between, every acceptance of the token, by whomever and whenever, fails.
pub accept_invitation-once :
    (input again : AcceptInput) (db after : Db) (result : AcceptResult) (rs : List Request)
    → again.token_hash ≡ input.token_hash
    → accept_invitation input db ≡ (ok result, after)
    → is_ok (accept_invitation again (handle_all rs after)).0 ≡ false
accept_invitation-once input again db after result rs same_token h =
    by_reply (accept_invitation again (handle_all rs after)) refl
  where
    joined : Joined input db result after
    joined = accept_invitation-Joined input db after result h

    by_reply :
        (r : Result InvitationError AcceptResult × Db)
        → accept_invitation again (handle_all rs after) ≡ r
        → is_ok r.0 ≡ false
    by_reply (err e, s) ran = refl
    by_reply (ok reply, s) ran =
        let second = accept_invitation-Joined again (handle_all rs after) s reply ran in
        let still : (second.i.status == pending) ≡ true = rw second.was_pending refl in
        let accepted_row = set_accepted input joined.user_id joined.i in
        let kept =
          find-Advanced input.token_hash accepted_row (handle_all-Advanced rs after) refl
            joined.accepted_after in
        let found = rw same_token at second.found in
        let same_row : some second.i ≡ some accepted_row = sym found ∙ kept in
        let it : second.i ≡ accepted_row = cc in
        let over : (second.i.status == pending) ≡ false = rw it refl in
        let impossible : true ≡ false = sym still ∙ over in cc
