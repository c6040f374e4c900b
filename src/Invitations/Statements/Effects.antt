-- ===== src/Invitations/Statements/Effects.antt =====
-- What a successful update of invitations did.
use taller_mecario_b.Base.{
  ℕ, Bool, true, false, not, ◌||◌, List, [], ◌∷◌, some, Result, ok, err, find, if◌then◌else◌, map,
  ltb, leb, ◌==◌, ◌≡◌, refl, sym, ap, bind_ok, then_ok, require_ok, not-true, Bool-cases, inl, inr,
  ◌∙◌,
}
use taller_mecario_b.Invitations.Store.{
  Invitation, pending, accepted, expired, invitation_status_key, Db, Violation,
  mi_immutable_columns, mi_terminal_state, mi_delivery_in_progress, mi_expire_before_deadline,
  mi_accept_after_deadline,
}
use taller_mecario_b.Invitations.Statements.{
  update_invitations, lifecycle, Updated, update_row, update_rows, updated, with_invitations,
  is_leased, implies, same_identity,
}

abbrev pub put : (Invitation → Bool) → (Invitation → Invitation) → Invitation → Invitation
put where_ set i = if where_ i then set i else i

-- Every row that the condition selects was set, behind the trigger's checks; the others stand.
pub record Effect (now : ℕ) (where_ : Invitation → Bool) (set : Invitation → Invitation) (db : Db)
    (rows : List Invitation) (after : Db) : Type 0 where
  pub table : after ≡ with_invitations db (map (put where_ set) db.invitations)
  pub checked :
      (p : Invitation → Bool) (i : Invitation)
      → find p db.invitations ≡ some i
      → where_ i ≡ true
      → lifecycle db now i (set i) ≡ ok tt

module _ (db : Db) (now : ℕ) (where_ : Invitation → Bool) (set : Invitation → Invitation) where
  update_rows-table :
      (rows : List Invitation) {u : Updated}
      → update_rows db now where_ set rows ≡ ok u
      → u.table ≡ map (put where_ set) rows
  update_rows-table [] {u} h =
      let it : ◌≡◌ {A = Updated} u (record { table = []; rows = [] }) = cc in
      ap (λ (w : Updated). w.table) it
  update_rows-table (i ∷ is) {u} h =
      let (rest, ran, h') = bind_ok (update_rows db now where_ set is) _ h in
      by_test (where_ i) refl rest (update_rows-table is ran) h'
    where
      by_test :
          (b : Bool)
          → where_ i ≡ b
          → (rest : Updated) → rest.table ≡ map (put where_ set) is
          → update_row db now b set i rest ≡ ok u
          → u.table ≡ put where_ set i ∷ map (put where_ set) is
      by_test false test rest p h =
          let it : ◌≡◌ {A = Updated} u (record { table = i ∷ rest.table; rows = rest.rows }) = cc in
          ap (λ (w : Updated). w.table) it ∙ rw (p, test) refl
      by_test true test rest p h =
          let (held, h2) = then_ok (lifecycle db now i (set i)) _ h in
          let it : ◌≡◌ {A = Updated} u
              (record { table = set i ∷ rest.table; rows = set i ∷ rest.rows }) =
            cc in
          ap (λ (w : Updated). w.table) it ∙ rw (p, test) refl

  update_rows-checked :
      (rows : List Invitation) {u : Updated}
      → update_rows db now where_ set rows ≡ ok u
      → (p : Invitation → Bool) (i : Invitation) → find p rows ≡ some i
      → where_ i ≡ true
      → lifecycle db now i (set i) ≡ ok tt
  update_rows-checked [] h p i found hit = cc
  update_rows-checked (j ∷ js) {u} h p i found hit =
      let (rest, ran, h') = bind_ok (update_rows db now where_ set js) _ h in
      elim (Bool-cases (p j)) [
        | inl hits ↦
            let first : some j ≡ some i = rw hits at found in
            let it : j ≡ i = cc in
            let held : update_row db now true set i rest ≡ ok u = rw (it, hit) at h' in
            (then_ok (lifecycle db now i (set i)) _ held).0
        | inr misses ↦ update_rows-checked js ran p i (rw misses at found) hit
      ]

  pub update_invitations-Effect :
      {rows : List Invitation} {after : Db}
      → update_invitations now where_ set db ≡ (ok rows, after)
      → Effect now where_ set db rows after
  unfolding update_invitations
  update_invitations-Effect {rows} {after} h =
      by_result (update_rows db now where_ set db.invitations) refl h
    where
      by_result :
          (r : Result Violation Updated)
          → update_rows db now where_ set db.invitations ≡ r
          → updated db r ≡ (ok rows, after)
          → Effect now where_ set db rows after
      by_result (err v) ran h = cc
      by_result (ok u) ran h =
          let it : with_invitations db u.table ≡ after = cc in
          record {
            table = sym it ∙ ap (with_invitations db) (update_rows-table db.invitations ran);
            checked = λ p i found hit. update_rows-checked db.invitations ran p i found hit;
          }

-- The checks of the trigger on a row that ends as accepted.
pub lifecycle-accepted :
    (db : Db) (now : ℕ) (i new : Invitation)
    → new.status ≡ accepted
    → lifecycle db now i new ≡ ok tt
    → (is_leased now i.tenant_id i.id db ≡ false) × (ltb now i.expires_at ≡ true)
unfolding lifecycle
lifecycle-accepted db now i new to h =
    let (alike, h1) = require_ok (same_identity i new) mi_immutable_columns _ h in
    let (was, h2) = require_ok (i.status == pending) mi_terminal_state _ h1 in
    let (free, h3) =
      require_ok (new.status == pending || not (is_leased now i.tenant_id i.id db))
        mi_delivery_in_progress _ h2 in
    let (e1, h4) =
      require_ok (implies (new.status == expired) (leb i.expires_at now)) mi_expire_before_deadline
        _ h3 in
    let (in_time, h5) =
      require_ok (implies (new.status == accepted) (ltb now i.expires_at)) mi_accept_after_deadline
        _ h4 in
    (not-true (rw to at free), rw to at in_time)

-- The lease check of the trigger on a row that ends.
pub lifecycle-free :
    (db : Db) (now : ℕ) (i new : Invitation)
    → (new.status == pending) ≡ false
    → lifecycle db now i new ≡ ok tt
    → is_leased now i.tenant_id i.id db ≡ false
unfolding lifecycle
lifecycle-free db now i new over h =
    let (alike, h1) = require_ok (same_identity i new) mi_immutable_columns _ h in
    let (was, h2) = require_ok (i.status == pending) mi_terminal_state _ h1 in
    let (free, h3) =
      require_ok (new.status == pending || not (is_leased now i.tenant_id i.id db))
        mi_delivery_in_progress _ h2 in
    not-true (rw over at free)
