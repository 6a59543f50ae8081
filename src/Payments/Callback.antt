-- ===== src/Payments/Callback.antt =====
-- The callback of Daraja: backend/internal/mpesa/webhook.go. The log is all that it records.
use geo_querry.Prelude.{
  ℕ, String, ◌≡◌, ◌≢◌, not, Option, none, some, List, [], ◌∷◌, str_eq, if◌then◌else◌,
}
use geo_querry.Prelude.Int.{ℤ, pos, is_zero}
use geo_querry.Prelude.Double.{Double, finite}

-- `Value any`: a number, or some other JSON value.
pub data Value : Type 0 where
  number : Double → Value
  other : String → Value

pub record Item : Type 0 where
  pub name : String
  pub value : Value

pub record CallbackBody : Type 0 where
  pub merchant_request_id : String
  pub checkout_request_id : String
  pub result_code : ℤ
  pub result_desc : String
  pub callback_metadata : List Item

-- one item of the array
abbrev pub amount_from : String → Value → Double → Double
amount_from name (number f) rest = if str_eq name "Amount" then f else rest
amount_from name (other s) rest = rest

abbrev pub amount_in : List Item → Double
amount_in [] = finite (pos 0)
amount_in (item ∷ items) = amount_from item.name item.value (amount_in items)

-- Amount
abbrev pub amount : CallbackBody → Double
amount cb = amount_in cb.callback_metadata

pub data Logged : Type 0 where
  bad_payload : Logged
  missing_id : Logged
  paid : String → Double → String → Logged
  failed : String → ℤ → String → Logged

pub record Response : Type 0 where
  pub status : ℕ
  pub body : String
  pub log : List Logged

-- WebhookHandler, from the check of CheckoutRequestID on
abbrev pub record_result : CallbackBody → Response
record_result cb =
    if str_eq cb.checkout_request_id ""
    then record { status = 400; body = ""; log = missing_id ∷ [] }
    else record {
      status = 200;
      body = "{\"ResultCode\":0,\"ResultDesc\":\"Accepted\"}";
      log =
          (if is_zero cb.result_code
            then paid cb.checkout_request_id (amount cb) cb.merchant_request_id
            else failed cb.checkout_request_id cb.result_code cb.result_desc)
          ∷ [];
    }

abbrev pub record_decoded : Option CallbackBody → Response
record_decoded none = record { status = 400; body = ""; log = bad_payload ∷ [] }
record_decoded (some cb) = record_result cb

-- WebhookHandler: `decode` is the JSON decoder on a body cut at 64 KB.
unfoldable pub callback : (String → Option CallbackBody) → String → String → String → Response
callback decode secret path_secret raw =
    if not (str_eq path_secret secret)
    then record { status = 404; body = "404 page not found\n"; log = [] }
    else record_decoded (decode raw)

-- Everything that has to hold for a payment to be recorded.
pub record IsPaid (decode : String → Option CallbackBody) (secret path_secret raw checkout : String)
    (sum : Double) (merchant : String) : Type 0 where
  pub authentic : path_secret ≡ secret
  pub cb : CallbackBody
  pub decoded : decode raw ≡ some cb
  pub checkout_given : checkout ≢ ""
  pub succeeded : cb.result_code ≡ pos 0
  pub same_checkout : cb.checkout_request_id ≡ checkout
  pub same_sum : amount cb ≡ sum
  pub same_merchant : cb.merchant_request_id ≡ merchant
