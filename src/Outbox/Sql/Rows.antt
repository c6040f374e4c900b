-- ===== src/Outbox/Sql/Rows.antt =====
-- What the functions on the table do to its rows, one step after another.
use taller_mecario_b.Base.{
  ℕ, ◌≤◌, String, Bool, true, false, List, [], ◌∷◌, Option, any, string_key, nat_key, if◌then◌else◌,
  map, ◌≡◌, refl, ap, ◌||◌, ◌∙◌, arith, ◌⊎◌, inl, inr, subst,
}
use taller_mecario_b.Outbox.Store.{
  OutboxStatus, OutboxOutcome, pending, processing, outbox_status_key, status_eqb_iff, OutboxRow,
  OutboxEvent, retry,
}
use taller_mecario_b.Outbox.Sql.{
  is_claimed, worker_complete_outbox_event, completed, claimed, requeued,
  bootstrap_claim_outbox_events, worker_requeue_stalled_outbox_events,
}

-- A status that no function leaves again.
abbrev pub is_terminal : OutboxStatus → Bool
is_terminal pending = false
is_terminal processing = false
is_terminal _ = true

-- A row stays the same, or was not terminal and has counted no attempt back; its event is otherwise the
-- same.
pub record Progress (old new : OutboxRow) : Type 0 where
  pub same_event : new.event ≡ record old.event { attempts = new.event.attempts }
  pub counted : old.event.attempts ≤ new.event.attempts
  pub moved : (new ≡ old) ⊎ (is_terminal old.status ≡ false)

pub data AllProgress : List OutboxRow → List OutboxRow → Type 0 where
  no_rows : AllProgress [] []
  next_row :
      {old new : OutboxRow} {olds news : List OutboxRow}
      → Progress old new
      → AllProgress olds news
      → AllProgress (old ∷ olds) (new ∷ news)

pub Progress-same : (row : OutboxRow) → Progress row row
Progress-same row = record { same_event = refl; counted = omega arith; moved = inl refl }

moved_twice :
    {a b c : OutboxRow}
    → (b ≡ a) ⊎ (is_terminal a.status ≡ false)
    → (c ≡ b) ⊎ (is_terminal b.status ≡ false)
    → (c ≡ a) ⊎ (is_terminal a.status ≡ false)
moved_twice (inr p) q = inr p
moved_twice (inl p) (inl q) = inl (q ∙ p)
moved_twice (inl p) (inr q) = inr (subst (λ (r : OutboxRow). is_terminal r.status ≡ false) p q)

Progress-trans : {a b c : OutboxRow} → Progress a b → Progress b c → Progress a c
Progress-trans {c} p q = record {
  same_event =
      q.same_event
      ∙ ap (λ (e : OutboxEvent). record e { attempts = c.event.attempts }) p.same_event;
  counted = omega (arith, p.counted, q.counted);
  moved = moved_twice p.moved q.moved;
}

pub AllProgress-same : (rows : List OutboxRow) → AllProgress rows rows
AllProgress-same [] = no_rows
AllProgress-same (row ∷ rows) = next_row (Progress-same row) (AllProgress-same rows)

pub AllProgress-trans :
    {olds mids news : List OutboxRow}
    → AllProgress olds mids
    → AllProgress mids news
    → AllProgress olds news
AllProgress-trans no_rows no_rows = no_rows
AllProgress-trans (next_row p ps) (next_row q qs) =
    next_row (Progress-trans p q) (AllProgress-trans ps qs)

AllProgress-map :
    (f : OutboxRow → OutboxRow)
    → ((row : OutboxRow) → Progress row (f row))
    → (rows : List OutboxRow) → AllProgress rows (map f rows)
AllProgress-map f each [] = no_rows
AllProgress-map f each (row ∷ rows) = next_row (each row) (AllProgress-map f each rows)

-- A change under a test that only rows of a status that is not terminal pass.
Progress-if :
    (b : Bool) (row new : OutboxRow)
    → (b ≡ true → is_terminal row.status ≡ false)
    → new.event ≡ record row.event { attempts = new.event.attempts }
    → row.event.attempts ≤ new.event.attempts
    → Progress row (if b then new else row)
Progress-if true row new unfinished same more = record {
  same_event = same;
  counted = more;
  moved = inr (unfinished refl);
}
Progress-if false row new unfinished same more = Progress-same row

pub worker_complete-AllProgress :
    (id : String) (outcome : OutboxOutcome) (error : Option String) (delay now : ℕ)
    (rows : List OutboxRow)
    → AllProgress rows (worker_complete_outbox_event id outcome error delay now rows).1
unfolding worker_complete_outbox_event
worker_complete-AllProgress id outcome error delay now rows =
    AllProgress-map _
      (λ row.
        Progress-if (is_claimed id row) row (completed outcome error delay now row)
          (λ h. ground (arith, status_eqb_iff row.status processing)) (kept outcome row)
          (counted outcome row))
      rows
  where
    kept :
        (o : OutboxOutcome) (row : OutboxRow)
        → (completed o error delay now row).event
          ≡ record row.event { attempts = (completed o error delay now row).event.attempts }
    kept OutboxOutcome.processed row = refl
    kept retry row = refl
    kept OutboxOutcome.failed row = refl
    kept OutboxOutcome.dead_letter row = refl

    counted :
        (o : OutboxOutcome) (row : OutboxRow)
        → row.event.attempts ≤ (completed o error delay now row).event.attempts
    counted OutboxOutcome.processed row = omega arith
    counted retry row = omega arith
    counted OutboxOutcome.failed row = omega arith
    counted OutboxOutcome.dead_letter row = omega arith

pub bootstrap_claim-AllProgress :
    (batch_size now : ℕ) (rows : List OutboxRow)
    → AllProgress rows (bootstrap_claim_outbox_events batch_size now rows).1
unfolding bootstrap_claim_outbox_events
bootstrap_claim-AllProgress batch_size now rows =
    AllProgress-map _
      (λ row.
        Progress-if _ row (claimed now row) (λ h. ground (arith, status_eqb_iff row.status pending))
          refl (omega arith))
      rows

pub worker_requeue-AllProgress :
    (stall_seconds batch_size now : ℕ) (rows : List OutboxRow)
    → AllProgress rows (worker_requeue_stalled_outbox_events stall_seconds batch_size now rows).1
unfolding worker_requeue_stalled_outbox_events
worker_requeue-AllProgress stall_seconds batch_size now rows =
    AllProgress-map _
      (λ row.
        Progress-if _ row (requeued now row)
          (λ h. ground (arith, status_eqb_iff row.status processing)) refl (omega arith))
      rows

-- After a completion no row of the event is claimed any more.
pub worker_complete-releases :
    (id : String) (outcome : OutboxOutcome) (error : Option String) (delay now : ℕ)
    (rows : List OutboxRow)
    → any (is_claimed id) (worker_complete_outbox_event id outcome error delay now rows).1 ≡ false
unfolding worker_complete_outbox_event
worker_complete-releases id outcome error delay now [] = refl
worker_complete-releases id outcome error delay now (row ∷ rows) =
    ground (arith, worker_complete-releases id outcome error delay now rows, released outcome)
  where
    released : (o : OutboxOutcome) → is_claimed id (completed o error delay now row) ≡ false
    released o = ground arith

map-unclaimed :
    (id : String) (f : OutboxRow → OutboxRow) (rows : List OutboxRow)
    → any (is_claimed id) rows ≡ false
    → map (λ row. if is_claimed id row then f row else row) rows ≡ rows
map-unclaimed id f [] h = refl
map-unclaimed id f (row ∷ rows) h = ground (arith, map-unclaimed id f rows)

-- What the workers do to rows between two claims: completions and stall recoveries.
pub data Unclaiming : Type 0 where
  completion : String → OutboxOutcome → Option String → ℕ → ℕ → Unclaiming
  recovery : ℕ → ℕ → ℕ → Unclaiming

abbrev pub run_step : Unclaiming → List OutboxRow → List OutboxRow
run_step (completion id outcome error delay now) rows =
    (worker_complete_outbox_event id outcome error delay now rows).1
run_step (recovery stall_seconds batch_size now) rows =
    (worker_requeue_stalled_outbox_events stall_seconds batch_size now rows).1

abbrev pub run_steps : List Unclaiming → List OutboxRow → List OutboxRow
run_steps [] rows = rows
run_steps (step ∷ steps) rows = run_steps steps (run_step step rows)

any-if :
    (id : String) (test : OutboxRow → Bool) (change : OutboxRow → OutboxRow)
    → ((row : OutboxRow) → is_claimed id (change row) ≡ false)
    → (rows : List OutboxRow) → any (is_claimed id) rows ≡ false
    → any (is_claimed id) (map (λ row. if test row then change row else row) rows) ≡ false
any-if id test change never [] h = refl
any-if id test change never (row ∷ rows) h =
    by_test (test row) (any-if id test change never rows (ground arith))
  where
    by_test :
        (b : Bool)
        → any (is_claimed id) (map (λ r. if test r then change r else r) rows) ≡ false
        → (is_claimed id (if b then change row else row)
            || any (is_claimed id) (map (λ r. if test r then change r else r) rows))
          ≡ false
    by_test true rest = rw (never row, rest) refl
    by_test false rest = rw rest (ground arith)

completed-unclaimed :
    (id : String) (outcome : OutboxOutcome) (error : Option String) (delay now : ℕ)
    (row : OutboxRow)
    → is_claimed id (completed outcome error delay now row) ≡ false
completed-unclaimed id outcome error delay now row = ground arith

run_steps-unclaimed :
    (id : String) (steps : List Unclaiming) (rows : List OutboxRow)
    → any (is_claimed id) rows ≡ false
    → any (is_claimed id) (run_steps steps rows) ≡ false
unfolding worker_complete_outbox_event worker_requeue_stalled_outbox_events
run_steps-unclaimed id [] rows h = h
run_steps-unclaimed id (completion other outcome error delay now ∷ steps) rows h =
    run_steps-unclaimed id steps _ (
      any-if id (is_claimed other) (completed outcome error delay now)
        (completed-unclaimed id outcome error delay now) rows h)
run_steps-unclaimed id (recovery stall_seconds batch_size now ∷ steps) rows h =
    run_steps-unclaimed id steps _ (any-if id _ (requeued now) (λ row. ground arith) rows h)

-- After a completion of an event, until the next claim, whatever completions and stall recoveries of
-- this and other events come between, another completion of it, with any outcome, reports that it did
-- nothing and changes no row.
pub worker_complete-twice :
    (id : String) (outcome outcome' : OutboxOutcome) (error error' : Option String)
    (delay delay' now now' : ℕ) (steps : List Unclaiming) (rows : List OutboxRow)
    → worker_complete_outbox_event id outcome' error' delay' now'
        (run_steps steps (worker_complete_outbox_event id outcome error delay now rows).1)
      ≡ (false, run_steps steps (worker_complete_outbox_event id outcome error delay now rows).1)
unfolding worker_complete_outbox_event
worker_complete-twice id outcome outcome' error error' delay delay' now now' steps rows =
    let released =
      run_steps-unclaimed id steps _ (worker_complete-releases id outcome error delay now rows) in
    rw (released, map-unclaimed id (completed outcome' error' delay' now') _ released) refl
