-- ===== src/Wompi/Tests.antt =====
-- A provider that fails twice and then answers, a value with a hidden card number, a charge, and a
-- webhook whose row of the success is refused.
use taller_mecario_b.Base.{
  ◌++◌, ℕ, zero, suc, true, false, ◌≤◌, [], ◌∷◌, none, some, ok, err, all, string_key, ◌≡◌, refl,
  arith,
}
use taller_mecario_b.Base.Steps.{◌>>=◌, return, throw, check, query, modify}
use taller_mecario_b.Wompi.Adapter.{
  Config, Parsers, Fetched, failed, response, parsed, no_json, outcome, parse_retry_after, attempts,
  request, called, slept,
}
use taller_mecario_b.Wompi.Adapter.Retries.{Tried, calls, is_short, request-Tried, request-bounded}
use taller_mecario_b.Wompi.Instruments.{
  Value, scalar, array, object, value, no_values, entry, no_entries, is_forbidden,
  normalize_payment_key, scan, assert_no_raw_payment_instrument, raw_payment_instrument_forbidden,
}
use taller_mecario_b.Wompi.Instruments.Laws.{
  verdict, is_clean, assert_no_raw_payment_instrument-is_clean,
}
use taller_mecario_b.Wompi.Charges.{
  Transaction, fetched, approved, pending, Charge, Provider, Billing, created_now,
  handle_charge_requested, find_provider_transaction_id, create_charge, assert_correlation, persist,
}
use taller_mecario_b.Wompi.Webhooks.{
  WebhookEvent, WebhookInput, applied, failure_row, process_webhook,
}
use taller_mecario_b.Wompi.Webhooks.Laws.{Logged, process_webhook-Logged}
use taller_mecario_b.Wompi.Charges.Laws.{creations, handle_charge_requested-once}

abbrev config : Config
config = record {
  max_attempts = 4;
  base_retry_delay = 250;
  max_retry_delay = 10000;
  jitter = λ attempt exponential. exponential;
}

abbrev parsers : Parsers
parsers = record { seconds = λ text. some 30; instant = λ text. none }

-- A timeout, a rate limit that asks for 30 seconds, and an answer.
abbrev replies : ℕ → Fetched ℕ
replies zero = failed false
replies (suc zero) = failed true
replies (suc (suc zero)) = response 429 (some "30") no_json
replies (suc (suc (suc n))) = response 200 none (parsed 7)

abbrev clock : ℕ → ℕ
clock n = n

gives_third :
    request config parsers clock replies []
    ≡ (ok 7, called 1 ∷ slept 250 ∷ called 2 ∷ slept 10000 ∷ called 3 ∷ [])
unfolding request outcome parse_retry_after attempts ◌>>=◌ return throw modify
gives_third = refl

request-Tried_example :
    Tried config
      (λ n. outcome parsers (clock n) (replies n))
      1
      3
      []
      (request config parsers clock replies [])
request-Tried_example = request-Tried config parsers clock replies 3 refl

request-bounded_example :
    (1 ≤ calls (request config parsers clock replies []).1)
    × (calls (request config parsers clock replies []).1 ≤ 4)
    × (all (is_short config) (request config parsers clock replies []).1 ≡ true)
request-bounded_example = request-bounded config parsers clock replies 3 refl

abbrev hidden : Value
hidden = object (
    entry "installments" scalar (
      entry "extra"
        (array (value scalar (value (object (entry "Card-Number" scalar no_entries)) no_values)))
        no_entries))

refuses_hidden : assert_no_raw_payment_instrument hidden ≡ raw_payment_instrument_forbidden
unfolding assert_no_raw_payment_instrument scan is_forbidden normalize_payment_key
refuses_hidden = refl

assert_no_raw_payment_instrument-is_clean_example :
    assert_no_raw_payment_instrument hidden ≡ verdict (is_clean hidden)
assert_no_raw_payment_instrument-is_clean_example = assert_no_raw_payment_instrument-is_clean hidden

abbrev charge : Charge
charge = record {
  tenant_id = "t1";
  subscription_id = "s1";
  payment_id = "p1";
  amount_minor = 500;
  payment_source_ref = "12";
  customer_email = "ana@taller.co";
  reference = "ilvox_pay_1";
}

abbrev paid : Transaction
paid = record {
  id = "w1";
  reference = "ilvox_pay_1";
  status = approved;
  amount_minor = 500;
  finalized_at = none;
}

abbrev wompi : Provider
wompi = record {
  get_acceptance_tokens = ok (record { acceptance_token = "a"; personal_data_auth_token = none });
  create_transaction = λ input. ok paid;
  get_transaction = λ id. ok paid;
}

abbrev billing : Billing
billing = record {
  payments =
      record {
        id = "p1";
        tenant_id = "t1";
        subscription_id = "s1";
        reference = "ilvox_pay_1";
        amount = 500;
        provider_transaction_id = none;
        status = pending;
        paid_at = none;
      }
      ∷ [];
  calls = [];
}

abbrev charged : Billing
charged = (handle_charge_requested wompi 9 (some charge) billing).1

charges : handle_charge_requested wompi 9 (some charge) billing ≡ (ok (created_now, paid), charged)
unfolding handle_charge_requested find_provider_transaction_id create_charge assert_correlation
    persist ◌>>=◌ return throw check query modify
charges = refl

handle_charge_requested-once_example :
    ((handle_charge_requested wompi 99 (some charge) charged).1.calls
      ≡ charged.calls ++ fetched "w1" ∷ [])
    × (creations (handle_charge_requested wompi 99 (some charge) charged).1.calls
        ≡ creations charged.calls)
handle_charge_requested-once_example =
    handle_charge_requested-once wompi wompi 9 99 charge billing charged created_now paid
      (omega arith) refl charges

abbrev webhook : WebhookEvent
webhook = record {
  webhook_event_id = "e1";
  transaction_id = "w1";
  reference = "ilvox_pay_1";
  status = approved;
  amount_minor = 500;
}

-- The row of a success is refused; the others are not.
abbrev refusing : WebhookInput
refusing = record {
  event = some webhook;
  webhook_event_id = some "e1";
  attempt_number = 1;
  apply_status = λ event. ok applied;
  append_error = λ row. elim row.error_code [ none ↦ some "LOG_UNAVAILABLE" | some code ↦ none ];
}

refused_run :
    process_webhook refusing []
    ≡ (err "LOG_UNAVAILABLE", failure_row refusing webhook "LOG_UNAVAILABLE" ∷ [])
unfolding process_webhook ◌>>=◌ return throw
refused_run = refl

process_webhook-Logged_example : Logged refusing [] (process_webhook refusing [])
process_webhook-Logged_example = process_webhook-Logged refusing []
