-- ===== src/Wompi/Charges.antt =====
-- The charge of a subscription: src/integrations/wompi/outbox-handler.ts and billing-repository.ts. The
-- provider's replies and the schema of the payload are inputs. The state of a charge is the payments and
-- the calls that were made to the provider.
pub mod Laws
use taller_mecario_b.Base.{
  ℕ, String, Bool, true, false, ◌&&◌, ◌||◌, not, List, [], ◌∷◌, ◌++◌, Option, none, some, Result,
  ok, err, keep, find, length, map, ◌==◌, string_key, nat_key, if◌then◌else◌,
}
use taller_mecario_b.Base.Steps.{
  Step, return, throw, check, query, modify, attempt, or_throw, ◌>>=◌, ◌>>◌,
}

pub data ProviderStatus : Type 0 where
  pending approved declined error voided : ProviderStatus

-- `NormalizedWompiTransaction`: the provider and the currency have one value each, and the local status
-- is the provider's in lower case.
pub record Transaction : Type 0 where
  pub id : String
  pub reference : String
  pub status : ProviderStatus
  pub amount_minor : ℕ
  pub finalized_at : Option ℕ

-- `SubscriptionChargeRequested`, of one version, provider and currency.
pub record Charge : Type 0 where
  pub tenant_id : String
  pub subscription_id : String
  pub payment_id : String
  pub amount_minor : ℕ
  pub payment_source_ref : String
  pub customer_email : String
  pub reference : String

pub record AcceptanceTokens : Type 0 where
  pub acceptance_token : String
  pub personal_data_auth_token : Option String

-- `CreateTransactionInput` of a charge: one instalment, recurrent.
pub record TransactionInput : Type 0 where
  pub tokens : AcceptanceTokens
  pub amount_minor : ℕ
  pub customer_email : String
  pub reference : String
  pub payment_source_id : String

pub data ChargeError : Type 0 where
  invalid_payload correlation_mismatch : ChargeError
  provider_error : String → ChargeError

-- `WompiProvider`: what each call gives or throws.
pub record Provider : Type 0 where
  pub get_acceptance_tokens : Result String AcceptanceTokens
  pub create_transaction : TransactionInput → Result String Transaction
  pub get_transaction : String → Result String Transaction

pub data Call : Type 0 where
  got_tokens : Call
  created : TransactionInput → Call
  fetched : String → Call

-- A row of `payments` whose provider is Wompi, in its currency.
pub record Payment : Type 0 where
  pub id : String
  pub tenant_id : String
  pub subscription_id : String
  pub reference : String
  pub amount : ℕ
  pub provider_transaction_id : Option String
  pub status : ProviderStatus
  pub paid_at : Option ℕ

pub record Billing : Type 0 where
  pub payments : List Payment
  pub calls : List Call

abbrev pub Run : Type 0 → Type 0
Run A = Step Billing ChargeError A

abbrev pub transaction_id : Option Payment → Option String
transaction_id none = none
transaction_id (some p) = p.provider_transaction_id

-- `findProviderTransactionId`.
unfoldable pub find_provider_transaction_id : String → Run (Option String)
find_provider_transaction_id payment_id =
    query (λ (b : Billing). transaction_id (find (λ p. p.id == payment_id) b.payments))

abbrev is_free_for : Option String → String → Bool
is_free_for none id = true
is_free_for (some own) id = own == id

-- The condition of the update of `recordProviderTransaction`.
abbrev pub is_payment_of : Charge → Transaction → Payment → Bool
is_payment_of charge t p =
    p.id == charge.payment_id
    && (p.tenant_id == charge.tenant_id
        && (p.subscription_id == charge.subscription_id
            && (p.reference == t.reference
                && (p.amount == t.amount_minor && is_free_for p.provider_transaction_id t.id))))

abbrev coalesce : Option ℕ → Option ℕ → ℕ → ℕ
coalesce (some a) b now = a
coalesce none (some b) now = b
coalesce none none now = now

abbrev paid_at_after : ProviderStatus → Option ℕ → Option ℕ → ℕ → Option ℕ
paid_at_after approved paid finalized now = some (coalesce paid finalized now)
paid_at_after _ paid finalized now = paid

abbrev pub with_transaction : ℕ → Transaction → Payment → Payment
with_transaction now t p = record p {
  provider_transaction_id = some t.id;
  status = t.status;
  paid_at = paid_at_after t.status p.paid_at t.finalized_at now;
}

abbrev pub set_payment : ℕ → Charge → Transaction → Payment → Payment
set_payment now charge t p = if is_payment_of charge t p then with_transaction now t p else p

-- `recordProviderTransaction`: an update of other than one row throws, which rolls it back.
unfoldable pub persist : ℕ → Charge → Transaction → Run (Unit {0})
persist now charge t = do
  rows ← query (λ (b : Billing). keep (is_payment_of charge t) b.payments)
  check (length rows == 1) correlation_mismatch
  modify (λ (b : Billing). record b { payments = map (set_payment now charge t) b.payments })

-- A call of the provider.
abbrev pub call : {A : Type 0} → Call → Result String A → Run A
call made reply = do
  modify (λ (b : Billing). record b { calls = b.calls ++ made ∷ [] })
  answered reply
  where
    answered : {A : Type 0} → Result String A → Run A
    answered (ok a) = return a
    answered (err code) = throw (provider_error code)

-- `assertCorrelation`.
unfoldable pub assert_correlation : Transaction → Charge → Run (Unit {0})
assert_correlation t charge =
    check (t.reference == charge.reference && t.amount_minor == charge.amount_minor)
      correlation_mismatch

-- `reconcileTransaction`.
unfoldable pub reconcile_transaction : Provider → String → Charge → Run Transaction
unfolding assert_correlation
reconcile_transaction provider id charge = do
  t ← call (fetched id) (provider.get_transaction id)
  assert_correlation t charge
  return t

abbrev pub transaction_input : Charge → AcceptanceTokens → TransactionInput
transaction_input charge tokens = record {
  tokens = tokens;
  amount_minor = charge.amount_minor;
  customer_email = charge.customer_email;
  reference = charge.reference;
  payment_source_id = charge.payment_source_ref;
}

pub data ChargeOutcome : Type 0 where
  created_now already_created : ChargeOutcome

unfoldable pub create_charge : Provider → ℕ → Charge → Run (ChargeOutcome × Transaction)
unfolding assert_correlation persist
create_charge provider now charge = do
  tokens ← call got_tokens provider.get_acceptance_tokens
  t ←
      call (created (transaction_input charge tokens))
        (provider.create_transaction (transaction_input charge tokens))
  assert_correlation t charge
  persist now charge t
  return (created_now, t)

unfoldable pub reconcile_charge : Provider → ℕ → Charge → String → Run (ChargeOutcome × Transaction)
unfolding reconcile_transaction persist
reconcile_charge provider now charge id = do
  t ← reconcile_transaction provider id charge
  persist now charge t
  return (already_created, t)

-- An empty id counts as none.
abbrev pub charge_by : Provider → ℕ → Charge → Option String → Run (ChargeOutcome × Transaction)
charge_by provider now charge none = create_charge provider now charge
charge_by provider now charge (some id) =
    if id == "" then create_charge provider now charge else reconcile_charge provider now charge id

-- `handleSubscriptionChargeRequested`: the payload as its schema gives it.
unfoldable pub handle_charge_requested :
    Provider → ℕ → Option Charge → Run (ChargeOutcome × Transaction)
handle_charge_requested provider now payload = do
  charge ← or_throw invalid_payload payload
  existing ← find_provider_transaction_id charge.payment_id
  charge_by provider now charge existing
