-- ===== src/Wompi/Adapter.antt =====
-- The request loop of WompiAdapter: src/integrations/wompi/adapter.ts and errors.ts. The state of a run is
-- the list of its actions. What one `fetch` gives is an input by the number of the attempt; delays are
-- whole milliseconds, and the jittered part of a delay is a parameter.
pub mod Retries
use taller_mecario_b.Base.{
  ℕ, zero, suc, ◌+◌, ◌-◌, ◌*◌, ◌^◌, String, Bool, true, false, ◌&&◌, ◌||◌, not, List, [], ◌∷◌, ◌++◌,
  Option, none, some, Result, ok, err, leb, ltb, min, ◌==◌, nat_key, string_key, if◌then◌else◌, all,
  code_points, length,
}
use taller_mecario_b.Base.Steps.{Step, return, throw, modify, ◌>>=◌, ◌>>◌}

pub data ErrorCategory : Type 0 where
  network timeout rate_limit provider functional contract : ErrorCategory

pub record AdapterError : Type 0 where
  pub code : String
  pub category : ErrorCategory
  pub retryable : Bool
  pub http_status : Option ℕ
  pub retry_after : Option ℕ

-- The body of a response: no JSON, JSON that its schema refuses, or what the schema gives.
pub data Body (T : Type 0) : Type 0 where
  no_json schema_refused : Body T
  parsed : T → Body T

-- `fetch` throws, by the abort of the timeout or not, or gives a response.
pub data Fetched (T : Type 0) : Type 0 where
  failed : Bool → Fetched T
  response : ℕ → Option String → Body T → Fetched T

-- `Number(value)` where finite and not negative, and the milliseconds of `Date.parse(value)`.
pub record Parsers : Type 0 where
  pub seconds : String → Option ℕ
  pub instant : String → Option ℕ

abbrev until : ℕ → Option ℕ → Option ℕ
until now none = none
until now (some date) = some (date - now)

abbrev or_date : ℕ → Option ℕ → Option ℕ → Option ℕ
or_date now (some seconds) date = some (seconds * 1000)
or_date now none date = until now date

-- `parseRetryAfter`.
unfoldable pub parse_retry_after : Parsers → ℕ → Option String → Option ℕ
parse_retry_after parsers now none = none
parse_retry_after parsers now (some value) =
    if value == "" then none else or_date now (parsers.seconds value) (parsers.instant value)

abbrev plain_error : String → ErrorCategory → Bool → AdapterError
plain_error code category retryable = record {
  code = code;
  category = category;
  retryable = retryable;
  http_status = none;
  retry_after = none;
}

abbrev pub status_code : ℕ → String
status_code status =
    if status == 429
    then "WOMPI_RATE_LIMITED"
    else if status == 422
    then "WOMPI_VALIDATION_REJECTED"
    else if leb 500 status
    then "WOMPI_PROVIDER_UNAVAILABLE"
    else "WOMPI_REQUEST_REJECTED"

abbrev pub status_category : ℕ → ErrorCategory
status_category status =
    if status == 429 then rate_limit else if leb 500 status then provider else functional

abbrev pub status_error : ℕ → Option ℕ → AdapterError
status_error status retry_after = record {
  code = status_code status;
  category = status_category status;
  retryable = status == 429 || leb 500 status;
  http_status = some status;
  retry_after = retry_after;
}

abbrev read_body : {T : Type 0} → Body T → Result AdapterError T
read_body no_json = err (plain_error "WOMPI_RESPONSE_INVALID" contract false)
read_body schema_refused = err (plain_error "WOMPI_RESPONSE_INVALID" contract false)
read_body (parsed value) = ok value

-- The `try` and `catch` of one attempt.
unfoldable pub outcome : {T : Type 0} → Parsers → ℕ → Fetched T → Result AdapterError T
unfolding parse_retry_after
outcome parsers now (failed true) = err (plain_error "WOMPI_TIMEOUT" timeout true)
outcome parsers now (failed false) = err (plain_error "WOMPI_NETWORK_ERROR" network true)
outcome parsers now (response status retry_after body) =
    if leb 200 status && leb status 299
    then read_body body
    else err (status_error status (parse_retry_after parsers now retry_after))

pub record Config : Type 0 where
  pub max_attempts : ℕ
  pub base_retry_delay : ℕ
  pub max_retry_delay : ℕ
  -- The exponential delay times a random factor from a half to one, by the attempt.
  pub jitter : ℕ → ℕ → ℕ

-- The defaults of the constructor and its bounds.
unfoldable pub configured_attempts : Option ℕ → Result String ℕ
configured_attempts none = ok 4
configured_attempts (some n) =
    if ltb n 1 || ltb 10 n then err "WOMPI_MAX_ATTEMPTS_INVALID" else ok n

abbrev or_jittered : Option ℕ → ℕ → ℕ
or_jittered none jittered = jittered
or_jittered (some retry_after) jittered = retry_after

-- The delay after a failed attempt.
abbrev pub delay : Config → ℕ → AdapterError → ℕ
delay config attempt e =
    min
      (or_jittered e.retry_after
        (config.jitter attempt (config.base_retry_delay * 2 ^ (attempt - 1))))
      config.max_retry_delay

pub data Action : Type 0 where
  called : ℕ → Action
  slept : ℕ → Action

abbrev pub Run : Type 0 → Type 0
Run T = Step (List Action) AdapterError T

abbrev pub act : Action → Run (Unit {0})
act action = modify (λ (actions : List Action). actions ++ action ∷ [])

abbrev last_error : AdapterError
last_error = plain_error "WOMPI_REQUEST_FAILED" provider false

-- The end of an attempt: `again` is the rest of the loop.
abbrev pub continue_with : {T : Type 0} → Config → ℕ → Run T → Result AdapterError T → Run T
continue_with config attempt again (ok value) = return value
continue_with config attempt again (err e) =
    if not e.retryable || attempt == config.max_attempts
    then throw e
    else (act (slept (delay config attempt e)) >> again)

-- The loop from an attempt on, with so many attempts left.
unfoldable pub attempts : {T : Type 0} → Config → (ℕ → Result AdapterError T) → ℕ → ℕ → Run T
attempts config call attempt zero = throw last_error
attempts config call attempt (suc left) = do
  act (called attempt)
  continue_with config attempt (attempts config call (suc attempt) left) (call attempt)

-- `request`: what each attempt's `fetch` gives, read at its instant.
unfoldable pub request : {T : Type 0} → Config → Parsers → (ℕ → ℕ) → (ℕ → Fetched T) → Run T
unfolding outcome attempts
request config parsers clock fetch =
    attempts config (λ n. outcome parsers (clock n) (fetch n)) 1 config.max_attempts
