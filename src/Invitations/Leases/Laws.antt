-- ===== src/Invitations/Leases/Laws.antt =====
-- What a delivery lease guarantees while it has not run out.
use taller_mecario_b.Base.{
  ℕ, ◌+◌, String, Bool, true, false, ◌&&◌, ◌||◌, List, [], ◌∷◌, Option, none, some, Result, ok, err,
  any, any-append, find, leb, ltb, is_ok, ◌==◌, string_key, map, ◌≡◌, refl, sym, ◌∙◌, ap, arith,
  Bool-cases, inl, inr, find_sound, ==_sound, ==_refl, and_true,
}
use taller_mecario_b.Invitations.Store.{
  InvitationStatus, pending, accepted, expired, revoked, invitation_status_key, Invitation, Lease,
  Delivery, Db, Violation,
}
use taller_mecario_b.Invitations.Statements.{
  is_delivery_of, is_valid, is_leased, update_invitations,
}
use taller_mecario_b.Invitations.Statements.Changes.{Ends}
use taller_mecario_b.Invitations.Statements.Effects.{update_invitations-Effect, lifecycle-free}
use taller_mecario_b.Invitations.Leases.{
  acquired, LeaseReply, LeaseError, Job, claimed_job, is_own, was_sent, has_lease, lease_valid,
  delivery_of, new_lease, write_lease, acquire_pending, acquire_status, acquire_for, acquire_found,
  acquire_lease, renewed,
}

abbrev Reply : Type 0
Reply = Result LeaseError LeaseReply × Db

abbrev got : Bool → Db → Reply
got prior after = (ok (record { outcome = acquired; prior_attempt_unconfirmed = prior }), after)

module _ (t : ℕ) (job : Job) (lease : Lease) (later : ltb t lease.expires_at ≡ true) where
  abbrev guards : Delivery → Bool
  guards d = is_delivery_of job.tenant_id job.invitation_id d && is_valid t d.lease

  any-renewed :
      (ds : List Delivery) {d : Delivery}
      → find (is_delivery_of job.tenant_id job.invitation_id) ds ≡ some d
      → any guards (map (renewed job lease) ds) ≡ true
  any-renewed [] h = cc
  any-renewed (e ∷ ds) {d} h =
      elim (Bool-cases (is_delivery_of job.tenant_id job.invitation_id e)) [
        | inl hit ↦ rw (hit, hit, later) refl
        | inr miss ↦ let rest = any-renewed ds (rw miss at h) in rw (miss, miss, rest) refl
      ]

  write_lease-guards :
      (d : Option Delivery) (db : Db)
      → delivery_of job db ≡ d
      → is_leased t job.tenant_id job.invitation_id (write_lease job lease d db) ≡ true
  write_lease-guards none db h =
      any-append guards db.deliveries _
      ∙ rw (==_refl job.tenant_id, ==_refl job.invitation_id, later) (or_true _)
    where
      or_true : (b : Bool) → b || true ≡ true
      or_true true = refl
      or_true false = refl
  write_lease-guards (some d) db h = any-renewed db.deliveries h

module _ (now : ℕ) (event_id lease_id : String) (seconds : ℕ) (job : Job) (db : Db) where
  abbrev lease : Lease
  lease = new_lease event_id lease_id job now seconds

  -- A lease that was written: for an invitation that is pending for the whole of it, beside no other.
  record Written (i : Invitation) (d : Option Delivery) (after : Db) : Type 0 where
    pub table : after ≡ write_lease job lease d db
    pub outlived : leb i.expires_at (now + seconds) ≡ false
    pub no_other : has_lease d && lease_valid now d ≡ false

  acquire_pending-Written :
      (i : Invitation) (d : Option Delivery) {after : Db} {prior : Bool}
      → acquire_pending now event_id lease_id seconds job i d db ≡ got prior after
      → Written i d after
  acquire_pending-Written i d {after} {prior} h =
      elim (Bool-cases (has_lease d && lease_valid now d)) [
        | inl busy_now ↦ absurd (ground (arith, busy_now, h))
        | inr free ↦ elim (Bool-cases (leb i.expires_at (now + seconds))) [
          | inl late ↦ absurd (ground (arith, free, late, h))
          | inr early ↦
              let it : ◌≡◌ {A = Reply} (got (has_lease d) (write_lease job lease d db))
                  (got prior after) =
                rw (free, early) at h in
              record { table = sym (ap (λ (r : Reply). r.1) it); outlived = early; no_other = free }
        ]
      ]

  acquire_status-Written :
      (status : InvitationStatus) (i : Invitation) (d : Option Delivery) {after : Db} {prior : Bool}
      → acquire_status status now event_id lease_id seconds job i d db ≡ got prior after
      → (status ≡ pending) × Written i d after
  acquire_status-Written pending i d h = (refl, acquire_pending-Written i d h)
  acquire_status-Written accepted i d h = cc
  acquire_status-Written expired i d h = cc
  acquire_status-Written revoked i d h = cc

  acquire_for-Written :
      (i : Invitation) (d : Option Delivery) {after : Db} {prior : Bool}
      → acquire_for now event_id lease_id seconds job i d db ≡ got prior after
      → (i.status ≡ pending) × Written i d after
  acquire_for-Written i d h = elim (Bool-cases (was_sent d)) [
    | inl once ↦ absurd (ground (arith, once, h))
    | inr never ↦ acquire_status-Written i.status i d (rw never at h)
  ]

  acquire_found-Written :
      (o : Option Invitation) (d : Option Delivery) {after : Db} {prior : Bool}
      → acquire_found now event_id lease_id seconds job o d db ≡ got prior after
      → (i : Invitation) × (o ≡ some i) × (i.status ≡ pending) × Written i d after
  acquire_found-Written none d h = cc
  acquire_found-Written (some i) d h =
      let (was, written) = acquire_for-Written i d h in (i, refl, was, written)

  acquire_lease-Written :
      {after : Db} {prior : Bool}
      → claimed_job event_id db ≡ some job
      → acquire_lease now event_id lease_id seconds db ≡ got prior after
      → (i : Invitation) × (find (is_own job) db.invitations ≡ some i)
        × (i.status ≡ pending)
        × Written i (delivery_of job db) after
  unfolding acquire_lease
  acquire_lease-Written claimed h = elim (Bool-cases (ltb seconds 2 || ltb 120 seconds)) [
    | inl bad ↦ absurd (ground (arith, bad, h))
    | inr good ↦
        acquire_found-Written (find (is_own job) db.invitations) (delivery_of job db)
          (rw (good, claimed) at h)
  ]

  -- While the lease that a job acquired has not run out, the database refuses every update that would
  -- end its invitation, by whichever condition it selects the row: an invitation whose email is on its
  -- way is neither accepted, revoked nor expired. The invitation was pending when the lease was given,
  -- with a deadline after the lease's, and no other lease was valid.
  pub acquire_lease-guards :
      (after : Db) (prior : Bool) (t : ℕ) (where_ : Invitation → Bool)
      (set : Invitation → Invitation) (i : Invitation)
      → claimed_job event_id db ≡ some job
      → acquire_lease now event_id lease_id seconds db
        ≡ (ok (record { outcome = acquired; prior_attempt_unconfirmed = prior }), after)
      → ltb t (now + seconds) ≡ true
      → find (is_own job) after.invitations ≡ some i
      → where_ i ≡ true
      → Ends set
      → (is_ok (update_invitations t where_ set after).0 ≡ false)
        × (i.status ≡ pending)
        × (leb i.expires_at (now + seconds) ≡ false)
        × (has_lease (delivery_of job db) && lease_valid now (delivery_of job db) ≡ false)
  acquire_lease-guards after prior t where_ set i claimed h early found hit ends =
      let (j, found_j, was, written) = acquire_lease-Written claimed h in
      let same_table : after.invitations ≡ db.invitations =
        ap (λ (d : Db). d.invitations) written.table
        ∙ write_lease-invitations (delivery_of job db) in
      let same_row : some i ≡ some j = sym found ∙ ap (find (is_own job)) same_table ∙ found_j in
      let it : i ≡ j = cc in
      (
        by_result (update_invitations t where_ set after) refl (leased written.table),
        rw it was,
        rw it written.outlived,
        written.no_other,
      )
    where
      write_lease-invitations :
          (d : Option Delivery) → (write_lease job lease d db).invitations ≡ db.invitations
      write_lease-invitations none = refl
      write_lease-invitations (some d) = refl

      leased :
          after ≡ write_lease job lease (delivery_of job db) db
          → is_leased t job.tenant_id job.invitation_id after ≡ true
      leased table = rw table (write_lease-guards t job lease early (delivery_of job db) db refl)

      own : (i.tenant_id == job.tenant_id ≡ true) × (i.id == job.invitation_id ≡ true)
      own =
          and_true {a = i.tenant_id == job.tenant_id}
            (find_sound (is_own job) after.invitations found)

      by_result :
          (r : Result Violation (List Invitation) × Db)
          → update_invitations t where_ set after ≡ r
          → is_leased t job.tenant_id job.invitation_id after ≡ true
          → is_ok r.0 ≡ false
      by_result (err v, s) ran held = refl
      by_result (ok rows, s) ran held =
          let effect = update_invitations-Effect after t where_ set ran in
          let free =
            lifecycle-free after t i (set i) (ends i) (effect.checked (is_own job) i found hit) in
          let by_tenant = ==_sound i.tenant_id job.tenant_id own.0 in
          let by_id = ==_sound i.id job.invitation_id own.1 in
          let impossible : true ≡ false = sym held ∙ rw (sym by_tenant, sym by_id) free in cc
