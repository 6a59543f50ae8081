-- ===== src/Payments/Daraja.antt =====
-- The Daraja client of backend/internal/mpesa/daraja.go: New, accessToken and STKPush. Times are in
-- nanoseconds. http.NewRequestWithContext fails only for a malformed address; the two addresses
-- of New are not. accessToken holds a mutex, so calls run one after another.
use Prim.Native.String.{◌++◌ as str_append}
use geo_querry.Prelude.{
  ℕ, ◌*◌, ◌^◌, String, Bool, not, ◌&&◌, Option, none, some, str_eq, if◌then◌else◌, ltb, leb, ◌==◌,
}
use Prim.Native.Nat.{◌%◌}
use geo_querry.Prelude.Int.{ℤ, pos, negsuc, ◌+ℤ◌, ◌-ℤ◌, ltb_ℤ, wrap64}
use geo_querry.Prelude.Outcome.{Outcome, failure, success}
use geo_querry.Payments.{Reply, unreachable, replied}

pub record Client : Type 0 where
  pub base_url : String
  pub shortcode : String
  pub passkey : String
  pub consumer_key : String
  pub consumer_secret : String
  pub callback_base : String

-- `token` and `tokenExpiry`, which the client keeps under tokenMu.
pub record TokenCache : Type 0 where
  pub token : String
  pub expiry : ℤ

abbrev pub empty_cache : TokenCache
empty_cache = record { token = ""; expiry = pos 0 }

-- New
abbrev pub new_client : String → String → String → String → String → String → Client
new_client env shortcode passkey consumer_key consumer_secret callback_base = record {
  base_url =
      if str_eq env "sandbox"
      then "https://sandbox.safaricom.co.ke"
      else "https://api.safaricom.co.ke";
  shortcode = shortcode;
  passkey = passkey;
  consumer_key = consumer_key;
  consumer_secret = consumer_secret;
  callback_base = callback_base;
}

-- The GET for a token, with its basic auth.
pub record TokenRequest : Type 0 where
  pub url : String
  pub user : String
  pub password : String

pub record TokenReply : Type 0 where
  pub access_token : String
  pub expires_in : String

pub record PushBody : Type 0 where
  pub business_shortcode : String
  pub password : String
  pub timestamp : String
  pub transaction_type : String
  pub amount : ℤ
  pub party_a : String
  pub party_b : String
  pub phone_number : String
  pub callback_url : String
  pub account_reference : String
  pub transaction_desc : String

pub record PushRequest : Type 0 where
  pub url : String
  pub bearer : String
  pub body : PushBody

pub record PushResult : Type 0 where
  pub checkout_request_id : String
  pub merchant_request_id : String
  pub customer_message : String

pub data MpesaError : Type 0 where
  oauth_unreachable : MpesaError
  oauth_status : ℕ → MpesaError
  oauth_undecodable : MpesaError
  oauth_no_token : MpesaError
  push_unreachable : MpesaError
  push_status : ℕ → MpesaError
  push_undecodable : MpesaError
  push_rejected : String → MpesaError

-- encoding/json, strconv.Atoi after strings.TrimSpace, and base64.
pub record Formats : Type 0 where
  pub token_of : String → Option TokenReply
  pub atoi : String → Option ℤ
  pub push_of : String → Option (PushResult × String)
  pub base64 : String → String

-- `secs`: what Daraja says, if that is a positive number, or 3599
abbrev pub positive_or_default : Option ℤ → ℕ
positive_or_default none = 3599
positive_or_default (some (pos n)) = if ltb 0 n then n else 3599
positive_or_default (some (negsuc n)) = 3599

-- `time.Duration(secs) * time.Second`, a product of two int64 values
abbrev pub seconds : ℕ → ℤ
seconds secs =
    let n = (secs * 10 ^ 9) % 2 ^ 64 in if leb (2 ^ 63) n then pos n -ℤ pos (2 ^ 64) else pos n

-- … `- 2*time.Minute`
unfoldable pub cache_time : ℕ → ℤ
unfolding wrap64 ◌-ℤ◌
cache_time secs = wrap64 (seconds secs -ℤ pos (120 * 10 ^ 9))

-- accessToken, on the decoded body
abbrev pub store_token :
    Formats → ℤ → TokenReply → TokenCache → Outcome MpesaError String × TokenCache
store_token formats now tok cache =
    if str_eq tok.access_token "" then (failure oauth_no_token, cache) else (
      success tok.access_token,
      record {
        token = tok.access_token;
        expiry = now +ℤ cache_time (positive_or_default (formats.atoi tok.expires_in));
      },
    )

abbrev pub decode_token :
    Formats → ℤ → Option TokenReply → TokenCache → Outcome MpesaError String × TokenCache
decode_token formats now none cache = (failure oauth_undecodable, cache)
decode_token formats now (some tok) cache = store_token formats now tok cache

-- accessToken, after the request
abbrev pub take_token : Formats → ℤ → Reply → TokenCache → Outcome MpesaError String × TokenCache
take_token formats now unreachable cache = (failure oauth_unreachable, cache)
take_token formats now (replied status body) cache =
    if status == 200
    then decode_token formats now (formats.token_of body) cache
    else (failure (oauth_status status), cache)

abbrev pub is_cached : ℤ → TokenCache → Bool
is_cached now cache = not (str_eq cache.token "") && ltb_ℤ now cache.expiry

abbrev pub token_request : Client → TokenRequest
token_request c = record {
  url = str_append c.base_url "/oauth/v1/generate?grant_type=client_credentials";
  user = c.consumer_key;
  password = c.consumer_secret;
}

-- accessToken: `now` is the clock at its start and `later` the clock after the reply.
unfoldable pub access_token :
    Formats
    → Client
    → (TokenRequest → Reply)
    → ℤ
    → ℤ
    → TokenCache
    → Outcome MpesaError String × TokenCache
access_token formats c oauth now later cache =
    if is_cached now cache
    then (success cache.token, cache)
    else take_token formats later (oauth (token_request c)) cache

-- `stamp` is the local time in the format of Daraja.
abbrev pub push_request :
    Formats → Client → String → String → String → ℤ → String → String → PushRequest
push_request formats c token stamp phone amount_kes account_ref desc = record {
  url = str_append c.base_url "/mpesa/stkpush/v1/processrequest";
  bearer = token;
  body = record {
    business_shortcode = c.shortcode;
    password = formats.base64 (str_append (str_append c.shortcode c.passkey) stamp);
    timestamp = stamp;
    transaction_type = "CustomerPayBillOnline";
    amount = amount_kes;
    party_a = phone;
    party_b = c.shortcode;
    phone_number = phone;
    callback_url = str_append c.callback_base "/webhooks/mpesa";
    account_reference = account_ref;
    transaction_desc = desc;
  };
}

abbrev pub decode_push : Option (PushResult × String) → Outcome MpesaError PushResult
decode_push none = failure push_undecodable
decode_push (some (result, message)) =
    if str_eq message "" then success result else failure (push_rejected message)

-- STKPush, after the request
abbrev pub take_push : Formats → Reply → Outcome MpesaError PushResult
take_push formats unreachable = failure push_unreachable
take_push formats (replied status body) =
    if status == 200 then decode_push (formats.push_of body) else failure (push_status status)

abbrev pub with_token :
    Formats
    → Client
    → (PushRequest → Reply)
    → String
    → String
    → ℤ
    → String
    → String
    → Outcome MpesaError String
    → Outcome MpesaError PushResult
with_token formats c gateway stamp phone amount_kes account_ref desc (failure e) = failure e
with_token formats c gateway stamp phone amount_kes account_ref desc (success token) =
    take_push formats
      (gateway (push_request formats c token stamp phone amount_kes account_ref desc))

-- STKPush
unfoldable pub stk_push :
    Formats
    → Client
    → (TokenRequest → Reply)
    → (PushRequest → Reply)
    → ℤ
    → ℤ
    → String
    → String
    → ℤ
    → String
    → String
    → TokenCache
    → Outcome MpesaError PushResult × TokenCache
unfolding access_token
stk_push formats c oauth gateway now later stamp phone amount_kes account_ref desc cache =
    let (token, cache') = access_token formats c oauth now later cache in
    (with_token formats c gateway stamp phone amount_kes account_ref desc token, cache')
