-- ===== src/Wompi/Charges/Laws.antt =====
-- What a charge that succeeded leaves for the next one of its payment.
use taller_mecario_b.Base.{
  ℕ, suc, ◌≤◌, String, Bool, true, false, ◌&&◌, List, [], ◌∷◌, ◌++◌, Option, none, some, Result, ok,
  err, keep, find, find-map, length, map, ◌==◌, string_key, nat_key, if◌then◌else◌, ◌≡◌, refl, sym,
  ◌∙◌, ap, subst, arith, Bool-cases, inl, inr, and_true, nat_eqb_iff,
}
use taller_mecario_b.Base.Steps.{return, throw, query, modify, check, ◌>>=◌}
use taller_mecario_b.Base.Steps.Meets.{
  Outcome, Meets, Meets-return, Meets-bind, Meets-check, Meets-query, Meets-at, if-Meets,
}
use taller_mecario_b.Wompi.Charges.{
  Transaction, Charge, ChargeError, Provider, Call, got_tokens, created, fetched, Payment, Billing,
  call, find_provider_transaction_id, is_payment_of, with_transaction, set_payment, persist,
  assert_correlation, reconcile_transaction, ChargeOutcome, create_charge, reconcile_charge,
  charge_by, handle_charge_requested, transaction_id,
}

-- How many transactions were asked for.
abbrev pub creations : List Call → ℕ
creations [] = 0
creations (created input ∷ calls) = suc (creations calls)
creations (got_tokens ∷ calls) = creations calls
creations (fetched id ∷ calls) = creations calls

-- What a charge that succeeds leaves: the one payment of its ids, reference and amount has the
-- transaction.
pub record Charged (now : ℕ) (charge : Charge) (b : Billing) (t : Transaction) (after : Billing)
    : Type 0 where
  pub correlated : (t.reference ≡ charge.reference) × (t.amount_minor ≡ charge.amount_minor)
  pub one_payment : length (keep (is_payment_of charge t) b.payments) ≡ 1
  pub recorded : after.payments ≡ map (set_payment now charge t) b.payments

module _ (provider : Provider) (now : ℕ) (charge : Charge) (b : Billing) where
  abbrev Any : ChargeError → Billing → Type 0
  Any e after = Unit {0}

  -- The payments are as they were.
  abbrev Kept : Billing → Type 0
  Kept s = s.payments ≡ b.payments

  call-Kept :
      {A : Type 0} (made : Call) (reply : Result String A) (s : Billing)
      → Kept s
      → Meets Any (λ _. Kept) (call made reply) s
  unfolding ◌>>=◌ modify return throw
  call-Kept made (ok a) s h = record { at = h }
  call-Kept made (err e) s h = record { at = tt }

  persist-Charged :
      (t : Transaction) (s : Billing)
      → Kept s
      → (t.reference ≡ charge.reference) × (t.amount_minor ≡ charge.amount_minor)
      → Meets Any (λ _. Charged now charge b t) (persist now charge t) s
  unfolding persist modify
  persist-Charged t s h correlated = Meets-query _ _ (
      Meets-check _ _ _ (λ bad. tt)
        λ one. record {
          at = record {
            correlated = correlated;
            one_payment =
                (nat_eqb_iff (length (keep (is_payment_of charge t) b.payments)) 1).0
                  (ap (λ ps. length (keep (is_payment_of charge t) ps) == 1) (sym h) ∙ one);
            recorded = ap (map (set_payment now charge t)) h;
          };
        })

  assert_correlation-Kept :
      (t : Transaction) (s : Billing)
      → Meets Any
          (λ _ after.
            (after ≡ s) × (t.reference ≡ charge.reference) × (t.amount_minor ≡ charge.amount_minor))
          (assert_correlation t charge)
          s
  unfolding assert_correlation check
  assert_correlation-Kept t s =
      by_test (t.reference == charge.reference) (t.amount_minor == charge.amount_minor) refl refl
    where
      by_test :
          (x y : Bool)
          → t.reference == charge.reference ≡ x
          → t.amount_minor == charge.amount_minor ≡ y
          → Meets Any
              (λ _ after.
                (after ≡ s)
                × (t.reference ≡ charge.reference)
                × (t.amount_minor ≡ charge.amount_minor))
              (check (x && y) ChargeError.correlation_mismatch)
              s
      by_test true true h h' = record {
        at = (
          refl,
          (string_key.same_iff t.reference charge.reference).0 h,
          (nat_eqb_iff t.amount_minor charge.amount_minor).0 h',
        );
      }
      by_test true false h h' = record { at = tt }
      by_test false y h h' = record { at = tt }

  abbrev Done : ChargeOutcome × Transaction → Billing → Type 0
  Done r after = Charged now charge b r.1 after

  create_charge-Charged :
      (s : Billing) → Kept s → Meets Any Done (create_charge provider now charge) s
  unfolding create_charge
  create_charge-Charged s h =
      Meets-bind (λ _. Kept) _ _ (call-Kept _ _ s h)
        λ tokens s1 h1.
          Meets-bind (λ _. Kept) _ _ (call-Kept _ _ s1 h1)
            λ t s2 h2.
              Meets-bind _ _ _ (assert_correlation-Kept t s2) λ done s3 (at_s3, reference, amount).
                Meets-at at_s3 (
                  Meets-bind _ _ _ (persist-Charged t s2 h2 (reference, amount))
                    λ done s4 charged. Meets-return _ charged)

  reconcile_charge-Charged :
      (id : String) (s : Billing)
      → Kept s
      → Meets Any Done (reconcile_charge provider now charge id) s
  unfolding reconcile_charge reconcile_transaction
  reconcile_charge-Charged id s h =
      Meets-bind
        (λ t s3.
          Kept s3 × (t.reference ≡ charge.reference) × (t.amount_minor ≡ charge.amount_minor))
        _ _
        (Meets-bind (λ _. Kept) _ _ (call-Kept _ _ s h)
          λ t s1 h1.
            Meets-bind _ _ _ (assert_correlation-Kept t s1) λ done s2 (at_s2, reference, amount).
              Meets-return t (ap (λ (x : Billing). x.payments) at_s2 ∙ h1, reference, amount))
        λ t s3 (h3, reference, amount).
          Meets-bind _ _ _ (persist-Charged t s3 h3 (reference, amount))
            λ done s4 charged. Meets-return _ charged

  charge_by-Charged :
      (existing : Option String) → Meets Any Done (charge_by provider now charge existing) b
  charge_by-Charged none = create_charge-Charged b refl
  charge_by-Charged (some id) =
      if-Meets (id == "") (λ h. create_charge-Charged b refl)
        (λ h. reconcile_charge-Charged id b refl)

  handle_charge_requested-Charged :
      Meets Any Done (handle_charge_requested provider now (some charge)) b
  unfolding handle_charge_requested find_provider_transaction_id ◌>>=◌ return query
  handle_charge_requested-Charged = record {
    at = (charge_by-Charged (transaction_id (find (λ p. p.id == charge.payment_id) b.payments))).at;
  }

module _ (p q : Payment → Bool) (within : (x : Payment) → p x ≡ true → q x ≡ true) where
  length-keep-within : (xs : List Payment) → length (keep p xs) ≤ length (keep q xs)
  length-keep-within [] = omega arith
  length-keep-within (x ∷ xs) = elim (Bool-cases (p x)) [
    | inl hit ↦ rw (hit, within x hit) (omega (arith, length-keep-within xs))
    | inr miss ↦ elim (Bool-cases (q x)) [
      | inl wide ↦ rw (miss, wide) (omega (arith, length-keep-within xs))
      | inr narrow ↦ rw (miss, narrow) (length-keep-within xs)
    ]
  ]

  -- The one element of a test is the first of a wider test that at most one element passes.
  find-only :
      (xs : List Payment)
      → length (keep p xs) ≡ 1
      → length (keep q xs) ≤ 1
      → (x : Payment) × (find q xs ≡ some x) × (p x ≡ true)
  find-only [] one unique = absurd (omega (arith, one))
  find-only (x ∷ xs) one unique = elim (Bool-cases (q x)) [
    | inl wide ↦ elim (Bool-cases (p x)) [
      | inl hit ↦ (x, rw wide refl, hit)
      | inr miss ↦
          let one' : length (keep p xs) ≡ 1 = rw miss at one in
          let unique' : suc (length (keep q xs)) ≤ 1 = rw wide at unique in
          absurd (omega (arith, one', unique', length-keep-within xs))
    ]
    | inr narrow ↦ elim (Bool-cases (p x)) [
      | inl hit ↦ absurd (ground (arith, within x hit, narrow))
      | inr miss ↦
          let (y, found, hit) = find-only xs (rw miss at one) (rw narrow at unique) in
          (y, rw narrow found, hit)
    ]
  ]

creations-fetched :
    (calls : List Call) (id : String) → creations (calls ++ fetched id ∷ []) ≡ creations calls
creations-fetched [] id = refl
creations-fetched (created input ∷ calls) id = ap suc (creations-fetched calls id)
creations-fetched (got_tokens ∷ calls) id = creations-fetched calls id
creations-fetched (fetched other ∷ calls) id = creations-fetched calls id

module _ (provider : Provider) (now : ℕ) (charge : Charge) (id : String) (b : Billing) where
  -- One call was made, which reads the transaction.
  abbrev Fetched : Billing → Type 0
  Fetched s = s.calls ≡ b.calls ++ fetched id ∷ []

  fetch-Fetched :
      (reply : Result String Transaction)
      → Meets (λ e. Fetched) (λ t. Fetched) (call (fetched id) reply) b
  unfolding ◌>>=◌ modify return throw
  fetch-Fetched (ok t) = record { at = refl }
  fetch-Fetched (err e) = record { at = refl }

  reconcile_charge-Fetched :
      Meets (λ e. Fetched) (λ r. Fetched) (reconcile_charge provider now charge id) b
  unfolding reconcile_charge reconcile_transaction assert_correlation persist modify
  reconcile_charge-Fetched =
      Meets-bind (λ t. Fetched) _ _
        (Meets-bind (λ t. Fetched) _ _ (fetch-Fetched (provider.get_transaction id))
          λ t s h. Meets-check _ _ _ (λ bad. h) (λ good. Meets-return t h))
        λ t s h.
          Meets-bind (λ done. Fetched) _ _
            (Meets-query _ _ (Meets-check _ _ _ (λ bad. h) (λ one. record { at = h })))
            λ done s' h'. Meets-return _ h'

set_payment-id :
    (now : ℕ) (charge : Charge) (t : Transaction) (id : String) (p : Payment)
    → ((set_payment now charge t p).id == id) ≡ (p.id == id)
set_payment-id now charge t id p = by_test (is_payment_of charge t p)
  where
    by_test : (b : Bool) → ((if b then with_transaction now t p else p).id == id) ≡ (p.id == id)
    by_test true = refl
    by_test false = refl

-- A charge that succeeded is not charged a second time: where its payment id is that of one payment and
-- its transaction has an id, the same event, however late and whatever the provider answers then, makes
-- one call, which reads the transaction that was recorded; it asks for no transaction.
pub handle_charge_requested-once :
    (provider again : Provider) (now later : ℕ) (charge : Charge) (b after : Billing)
    (outcome : ChargeOutcome) (t : Transaction)
    → length (keep (λ (p : Payment). p.id == charge.payment_id) b.payments) ≤ 1
    → (t.id == "") ≡ false
    → handle_charge_requested provider now (some charge) b ≡ (ok (outcome, t), after)
    → ((handle_charge_requested again later (some charge) after).1.calls
        ≡ after.calls ++ fetched t.id ∷ [])
      × (creations (handle_charge_requested again later (some charge) after).1.calls
          ≡ creations after.calls)
unfolding handle_charge_requested find_provider_transaction_id ◌>>=◌ return query
handle_charge_requested-once provider again now later charge b after outcome t unique named h =
    let read : (charge_by again later charge
          (transaction_id (find (λ (p : Payment). p.id == charge.payment_id) after.payments))
          after).1.calls
        ≡ after.calls ++ fetched t.id ∷ [] =
      rw (recorded, named)
        (calls_of (reconcile_charge again later charge t.id after)
          (reconcile_charge-Fetched again later charge t.id after).at) in
    (read, ap creations read ∙ creations-fetched after.calls t.id)
  where
    calls_of :
        (r : Result ChargeError (ChargeOutcome × Transaction) × Billing)
        → Outcome
            (λ e s. s.calls ≡ after.calls ++ fetched t.id ∷ [])
            (λ c s. s.calls ≡ after.calls ++ fetched t.id ∷ [])
            r
        → r.1.calls ≡ after.calls ++ fetched t.id ∷ []
    calls_of (ok c, s) h = h
    calls_of (err e, s) h = h

    charged : Charged now charge b t after
    charged =
        subst
          (λ (r : Result ChargeError (ChargeOutcome × Transaction) × Billing).
            Outcome (λ e s. Unit {0})
              (λ (c : ChargeOutcome × Transaction) s. Charged now charge b c.1 s) r)
          h (handle_charge_requested-Charged provider now charge b).at

    recorded :
        transaction_id (find (λ (p : Payment). p.id == charge.payment_id) after.payments)
        ≡ some t.id
    recorded =
        let (p, found, own) =
          find-only (is_payment_of charge t) (λ (p : Payment). p.id == charge.payment_id)
            (λ x hit. (and_true {a = x.id == charge.payment_id} hit).0) b.payments
            charged.one_payment unique in
        ap (λ ps. transaction_id (find (λ (p : Payment). p.id == charge.payment_id) ps))
          charged.recorded
        ∙ ap transaction_id (
            find-map (λ (p : Payment). p.id == charge.payment_id) (set_payment now charge t)
              b.payments (set_payment-id now charge t charge.payment_id) found)
        ∙ rw own refl
