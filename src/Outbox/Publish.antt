-- ===== src/Outbox/Publish.antt =====
-- Publication of an event in the transaction of its domain change: src/outbox/publish.ts. The connection
-- is that of the event's tenant, so row security shows it the rows of that tenant; the unique index on
-- the idempotency key is over all rows.
use taller_mecario_b.Base.{
  ℕ, String, Bool, true, false, ◌&&◌, List, [], ◌∷◌, ◌++◌, Option, none, some, Result, ok, err, any,
  any-append, find, ◌==◌, string_key, if◌then◌else◌, ◌≡◌, refl, sym, ◌∙◌, ap, arith, Bool-cases,
  inl, inr, ==_refl, subst,
}
use taller_mecario_b.Outbox.Store.{pending, OutboxRow}

pub record OutboxEventInput : Type 0 where
  pub id : String
  pub tenant_id : String
  pub aggregate_type : String
  pub aggregate_id : Option String
  pub event_type : String
  pub event_version : Option ℕ
  pub payload : String
  pub idempotency_key : Option String

pub record PublishResult : Type 0 where
  pub id : String
  pub deduplicated : Bool

pub data PublishError : Type 0 where
  outbox_publish_conflict_without_existing_row duplicate_id : PublishError

abbrev or_one : Option ℕ → ℕ
or_one none = 1
or_one (some version) = version

-- The inserted row, with the defaults of its columns.
abbrev pub inserted_row : OutboxEventInput → ℕ → OutboxRow
inserted_row input now = record {
  event = record {
    id = input.id;
    tenant_id = some input.tenant_id;
    aggregate_type = input.aggregate_type;
    aggregate_id = input.aggregate_id;
    event_type = input.event_type;
    event_version = or_one input.event_version;
    payload = input.payload;
    idempotency_key = input.idempotency_key;
    attempts = 0;
  };
  status = pending;
  available_at = now;
  processed_at = none;
  last_error = none;
  updated_at = now;
}

-- Equality of SQL: never with NULL.
abbrev pub sql_eqb : Option String → Option String → Bool
sql_eqb (some a) (some b) = a == b
sql_eqb _ _ = false

abbrev pub has_key : Option String → OutboxRow → Bool
has_key key row = sql_eqb row.event.idempotency_key key

abbrev pub is_visible : String → Option String → OutboxRow → Bool
is_visible tenant_id key row = sql_eqb row.event.tenant_id (some tenant_id) && has_key key row

abbrev pub existing_id : Option OutboxRow → Result PublishError PublishResult
existing_id none = err outbox_publish_conflict_without_existing_row
existing_id (some row) = ok (record { id = row.event.id; deduplicated = true })

unfoldable pub publish_outbox_event :
    OutboxEventInput → ℕ → List OutboxRow → Result PublishError PublishResult × List OutboxRow
publish_outbox_event input now rows =
    if any (has_key input.idempotency_key) rows
    then (existing_id (find (is_visible input.tenant_id input.idempotency_key) rows), rows)
    else if any (λ row. row.event.id == input.id) rows
    then (err duplicate_id, rows)
    else (ok (record { id = input.id; deduplicated = false }), rows ++ inserted_row input now ∷ [])

find-append_new :
    (t key : String) (rows : List OutboxRow) (row : OutboxRow)
    → any (has_key (some key)) rows ≡ false
    → is_visible t (some key) row ≡ true
    → find (is_visible t (some key)) (rows ++ row ∷ []) ≡ some row
find-append_new t key [] row h seen = rw seen refl
find-append_new t key (r ∷ rows) row h seen = ground (arith, find-append_new t key rows row)

abbrev PublishRun : Type 0
PublishRun = Result PublishError PublishResult × List OutboxRow

-- What a publication under a key leaves: the row that the reply names, visible to its workshop.
Published : String → String → PublishResult → List OutboxRow → Type 0
Published t key result rows =
    (any (has_key (some key)) rows ≡ true)
    × ((row : OutboxRow) × (find (is_visible t (some key)) rows ≡ some row)
        × (row.event.id ≡ result.id))

Published-old :
    (t key : String) (o : Option OutboxRow) (rows rows' : List OutboxRow) (result : PublishResult)
    → any (has_key (some key)) rows ≡ true
    → find (is_visible t (some key)) rows ≡ o
    → ◌≡◌ {A = PublishRun} (existing_id o, rows) (ok result, rows')
    → Published t key result rows'
unfolding Published
Published-old t key none rows rows' result old found h = cc
Published-old t key (some row) rows rows' result old found h =
    let same : rows ≡ rows' = ap (λ (p : PublishRun). p.1) h in
    let replied : ◌≡◌ {A = PublishResult} (record { id = row.event.id; deduplicated = true })
        result =
      cc in
    subst (Published t key result) same
      (old, (row, found, ap (λ (r : PublishResult). r.id) replied))

Published-new :
    (input : OutboxEventInput) (key : String) (now : ℕ) (rows rows' : List OutboxRow)
    (result : PublishResult)
    → input.idempotency_key ≡ some key
    → any (has_key (some key)) rows ≡ false
    → publish_outbox_event input now rows ≡ (ok result, rows')
    → Published input.tenant_id key result rows'
unfolding Published publish_outbox_event
Published-new input key now rows rows' result keyed new h =
    elim (Bool-cases (any (λ (row : OutboxRow). row.event.id == input.id) rows)) [
      | inl taken ↦ absurd (ground (arith, keyed, new, taken, h))
      | inr fresh ↦
          let run : ◌≡◌ {A = PublishRun}
              (
                ok (record { id = input.id; deduplicated = false }),
                rows ++ inserted_row input now ∷ [],
              )
              (ok result, rows') =
            sym (rw (keyed, new, fresh) refl) ∙ h in
          let same : ◌≡◌ {A = List OutboxRow} (rows ++ inserted_row input now ∷ []) rows' =
            ap (λ (p : PublishRun). p.1) run in
          let replied : ◌≡◌ {A = PublishResult} (record { id = input.id; deduplicated = false })
              result =
            cc in
          subst (Published input.tenant_id key result) same (
            any-append (has_key (some key)) rows (inserted_row input now ∷ [])
                ∙ ground (arith, has_own),
            (
              inserted_row input now,
              find-append_new input.tenant_id key rows (inserted_row input now) new
                  (rw keyed (ground (arith, ==_refl input.tenant_id, ==_refl key))),
              ap (λ (r : PublishResult). r.id) replied,
            ),
          )
    ]
  where
    has_own : has_key (some key) (inserted_row input now) ≡ true
    has_own = rw keyed (==_refl key)

-- An event that was published under a key is published again under the key, by the same workshop with
-- whatever other content, without a second row: the reply names the first event.
pub publish_outbox_event-again :
    (input again : OutboxEventInput) (key : String) (now later : ℕ) (rows rows' : List OutboxRow)
    (result : PublishResult)
    → input.idempotency_key ≡ some key
    → again.idempotency_key ≡ some key
    → again.tenant_id ≡ input.tenant_id
    → publish_outbox_event input now rows ≡ (ok result, rows')
    → publish_outbox_event again later rows'
      ≡ (ok (record { id = result.id; deduplicated = true }), rows')
unfolding publish_outbox_event Published
publish_outbox_event-again input again key now later rows rows' result keyed keyed' same h =
    let (held, (row, found, named)) = first (any (has_key (some key)) rows) refl in
    rw (keyed', same, held, found, named) refl
  where
    first :
        (b : Bool) → any (has_key (some key)) rows ≡ b → Published input.tenant_id key result rows'
    first true old =
        Published-old input.tenant_id key (find (is_visible input.tenant_id (some key)) rows) rows
          rows' result old refl (sym (rw (keyed, old) refl) ∙ h)
    first false new = Published-new input key now rows rows' result keyed new h
