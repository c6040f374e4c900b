-- ===== src/Invitations/Sender.antt =====
-- The Resend client: ResendEmailSender of src/invitations/email.ts. What `fetch` gives is an input.
use taller_mecario_b.Base.{
  ℕ, String, ◌<>◌, Bool, true, false, ◌&&◌, ◌||◌, Option, none, some, Result, ok, err, min, max,
  length, code_points, leb, ◌==◌, string_key, nat_key, if◌then◌else◌,
}

pub data DispatchError : Type 0 where
  transient permanent : String → DispatchError

-- An error and whether `isProviderRejection` holds of it.
pub record SendError : Type 0 where
  pub error : DispatchError
  pub is_rejection : Bool

-- The fields of a decoded body that are texts.
pub record Body : Type 0 where
  pub id : Option String
  pub name : Option String

-- A response has `ok` for the statuses from 200 to 299; a body that is no JSON has no field.
pub data Fetched : Type 0 where
  network_error : Fetched
  response : ℕ → Body → Fetched

-- The timeout of a request: that of the client, shortened to the remaining window.
unfoldable pub request_timeout : ℕ → Option ℕ → ℕ
request_timeout configured none = max 1 configured
request_timeout configured (some window) = max 1 (min configured window)

abbrev is_name : Option String → String → Bool
is_name none name = false
is_name (some own) name = own == name

abbrev plain : DispatchError → SendError
plain e = record { error = e; is_rejection = false }

abbrev rejected : DispatchError → SendError
rejected e = record { error = e; is_rejection = true }

abbrev accepted_reply : Option String → Result SendError String
accepted_reply none = err (plain (transient "RESEND_RESPONSE_INVALID"))
accepted_reply (some id) =
    if leb 1 (length (code_points id)) && leb (length (code_points id)) 128
    then ok id
    else err (plain (transient "RESEND_RESPONSE_INVALID"))

-- `show` gives the digits of a status.
unfoldable pub read_response : (ℕ → String) → Fetched → Result SendError String
read_response show network_error = err (plain (transient "RESEND_NETWORK_ERROR"))
read_response show (response status body) =
    if leb 200 status && leb status 299
    then accepted_reply body.id
    else if status == 409 && is_name body.name "concurrent_idempotent_requests"
    then err (plain (transient "RESEND_HTTP_409_CONCURRENT"))
    else if status == 408 || leb 500 status
    then err (plain (transient ("RESEND_HTTP_" <> show status)))
    else if status == 429 || status == 401 || status == 403
    then err (rejected (transient ("RESEND_HTTP_" <> show status)))
    else err (rejected (permanent ("RESEND_HTTP_" <> show status)))
