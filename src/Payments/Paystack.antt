-- ===== src/Payments/Paystack.antt =====
-- The Paystack client and webhook: backend/internal/paystack/client.go and webhook.go.
-- `well_formed` says whether http.NewRequest takes an address.
use Prim.Native.String.{◌++◌ as str_append}
use geo_querry.Prelude.{
  ℕ, String, Bool, false, not, Option, none, some, List, [], ◌∷◌, str_eq, if◌then◌else◌, ◌==◌,
}
use geo_querry.Prelude.Int.{ℤ}
use geo_querry.Prelude.Outcome.{Outcome, failure, success}
use geo_querry.Payments.{Reply, unreachable, replied}

pub record Client : Type 0 where
  pub secret_key : String
  pub base_url : String

-- New
abbrev pub new_client : String → String → Client
new_client secret_key base_url = record {
  secret_key = secret_key;
  base_url = if str_eq base_url "" then "https://api.paystack.co" else base_url;
}

pub record Charge : Type 0 where
  pub email : String
  pub amount : ℤ
  pub reference : String
  pub callback_url : String

pub data Request : Type 0 where
  initialize : String → String → Charge → Request
  lookup : String → String → Request

-- The `status` and the authorization_url of a reply.
pub record Started : Type 0 where
  pub status : Bool
  pub authorization_url : String

pub record Event : Type 0 where
  pub event : String
  pub reference : String
  pub amount : ℤ
  pub status : String

-- encoding/json, encoding/hex and HMAC-SHA512.
pub record Formats : Type 0 where
  pub well_formed : String → Bool
  pub started_of : String → Option Started
  pub status_of : String → Option String
  pub event_of : String → Option Event
  pub unhex : String → Option String
  pub hmac : String → String → String

pub data PaystackError : Type 0 where
  malformed_url : PaystackError
  no_reply : PaystackError
  http_status : ℕ → PaystackError
  bad_response : PaystackError

-- what both calls do with the body of a 200 reply
abbrev pub on_reply :
    {A : Type 0} → (String → Outcome PaystackError A) → Reply → Outcome PaystackError A
on_reply read unreachable = failure no_reply
on_reply read (replied status body) =
    if status == 200 then read body else failure (http_status status)

abbrev pub started_or_fail : Option Started → Outcome PaystackError String
started_or_fail none = failure bad_response
started_or_fail (some out) =
    if not out.status then failure bad_response else success out.authorization_url

-- InitializeTransaction
unfoldable pub initialize_transaction :
    Formats
    → Client
    → (Request → Reply)
    → String
    → ℤ
    → String
    → String
    → Outcome PaystackError String
initialize_transaction formats c net email amount_minor reference callback_url =
    let url = str_append c.base_url "/transaction/initialize" in
    if formats.well_formed url
    then on_reply (λ body. started_or_fail (formats.started_of body))
        (net (
          initialize url c.secret_key (record {
            email = email;
            amount = amount_minor;
            reference = reference;
            callback_url = callback_url;
          })))
    else failure malformed_url

abbrev pub success_or_fail : Option String → Outcome PaystackError Bool
success_or_fail none = failure bad_response
success_or_fail (some status) = success (str_eq status "success")

abbrev pub lookup_url : Client → String → String
lookup_url c reference = str_append (str_append c.base_url "/transaction/verify/") reference

-- VerifyTransaction
unfoldable pub verify_transaction :
    Formats → Client → (Request → Reply) → String → Outcome PaystackError Bool
verify_transaction formats c net reference =
    if formats.well_formed (lookup_url c reference)
    then on_reply (λ body. success_or_fail (formats.status_of body))
        (net (lookup (lookup_url c reference) c.secret_key))
    else failure malformed_url

-- VerifySignature
unfoldable pub verify_signature : Formats → String → String → String → Bool
verify_signature formats raw_body secret_key hex_signature = elim (formats.unhex hex_signature) [
  | none ↦ false
  | some got ↦ str_eq got (formats.hmac secret_key raw_body)
]

pub data Logged : Type 0 where
  bad_signature : Logged
  bad_json : Logged
  reverify_failed : String → Logged
  charge : String → ℤ → Bool → Logged

pub record Response : Type 0 where
  pub status : ℕ
  pub log : List Logged

abbrev pub answer : ℕ → List Logged → Response
answer status log = record { status = status; log = log }

-- a charge.success, after it was verified again
abbrev pub log_charge : Event → Outcome PaystackError Bool → Response
log_charge ev (failure e) = answer 500 (reverify_failed ev.reference ∷ [])
log_charge ev (success paid) = answer 200 (charge ev.reference ev.amount paid ∷ [])

-- `paid := false; if verify != nil { … }`
abbrev pub reverify :
    Option (String → Outcome PaystackError Bool) → String → Outcome PaystackError Bool
reverify none reference = success false
reverify (some verify) reference = verify reference

-- WebhookHandler, on the parsed event
abbrev pub handle_event : Option (String → Outcome PaystackError Bool) → Option Event → Response
handle_event verify none = answer 400 (bad_json ∷ [])
handle_event verify (some ev) =
    if str_eq ev.event "charge.success"
    then log_charge ev (reverify verify ev.reference)
    else answer 200 []

-- WebhookHandler, on the body cut at 64 KB
abbrev pub handle_raw :
    Formats → String → Option (String → Outcome PaystackError Bool) → String → String → Response
handle_raw formats secret_key verify signature raw =
    if not (verify_signature formats raw secret_key signature)
    then answer 401 (bad_signature ∷ [])
    else handle_event verify (formats.event_of raw)

-- WebhookHandler: `raw` is none where the body cannot be read.
unfoldable pub webhook :
    Formats
    → String
    → Option (String → Outcome PaystackError Bool)
    → String
    → Option String
    → Response
unfolding verify_signature
webhook formats secret_key verify signature none = answer 400 []
webhook formats secret_key verify signature (some raw) =
    handle_raw formats secret_key verify signature raw
