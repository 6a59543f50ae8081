-- ===== src/Payments/Tests.antt =====
-- The payment rails at concrete requests.
use Prim.Native.String.{◌++◌ as str_append}
use geo_querry.Prelude.{
  ◌^◌, ◌*◌, String, ◌≡◌, ◌↔◌, refl, true, Option, none, some, [], ◌∷◌, str_eq, if◌then◌else◌,
}
use geo_querry.Prelude.Int.{pos, ◌+ℤ◌, ◌-ℤ◌, wrap64}
use geo_querry.Prelude.Double.{finite}
use geo_querry.Payments.{Reply, unreachable, replied}
use geo_querry.Payments.Daraja
use geo_querry.Payments.Daraja.{
  TokenCache, TokenReply, empty_cache, access_token, cache_time, new_client,
}
use geo_querry.Payments.Tokens.{Call, after, Held, access_token-Held}
use geo_querry.Payments.Callback.{CallbackBody, number, other, paid, callback}
use geo_querry.Payments.Paystack
use geo_querry.Payments.Paystack.{
  lookup, Event, charge, answer, verify_transaction, verify_signature, webhook,
}
use geo_querry.Payments.Signed.{IsSigned, IsConfirmed, webhook_iff}

abbrev daraja_formats : Daraja.Formats
daraja_formats = record {
  token_of = λ s. some (record { access_token = s; expires_in = "3600" });
  atoi = λ s. if str_eq s "3600" then some (pos 3600) else none;
  push_of = λ s. none;
  base64 = λ s. s;
}

abbrev sandbox : Daraja.Client
sandbox = new_client "sandbox" "174379" "passkey" "key" "secret" ""

-- the first call at one second, the next a thousand seconds later
abbrev first : Call
first = record { now = pos (10 ^ 9); later = pos (2 * 10 ^ 9); oauth = λ r. replied 200 "t1" }

abbrev second : Call
second = record { now = pos (1000 * 10 ^ 9); later = pos (1001 * 10 ^ 9); oauth = λ r. unreachable }

access_token-Held_example : Held daraja_formats sandbox second (first ∷ []) "t1"
unfolding access_token after cache_time wrap64 ◌+ℤ◌ ◌-ℤ◌
access_token-Held_example = access_token-Held daraja_formats sandbox (first ∷ []) second "t1" refl

abbrev paid_body : CallbackBody
paid_body = record {
  merchant_request_id = "m1";
  checkout_request_id = "ws_CO_1";
  result_code = pos 0;
  result_desc = "ok";
  callback_metadata =
      record { name = "Amount"; value = other "\"1\"" }
      ∷ record { name = "Amount"; value = number (finite (pos 5)) }
      ∷ [];
}

abbrev decode_paid : String → Option CallbackBody
decode_paid s = if str_eq s "{…}" then some paid_body else none

recorded :
    (callback decode_paid "s3cret" "s3cret" "{…}").log ≡ paid "ws_CO_1" (finite (pos 5)) "m1" ∷ []
unfolding callback
recorded = refl

wrong_secret : (callback decode_paid "s3cret" "" "{…}").status ≡ 404
unfolding callback
wrong_secret = refl

abbrev paystack_formats : Paystack.Formats
paystack_formats = record {
  well_formed = λ s. true;
  started_of = λ s. none;
  status_of = λ s. some s;
  event_of = λ s.
      some
        (record { event = "charge.success"; reference = s; amount = pos 500; status = "success" });
  unhex = λ s. some s;
  hmac = λ k s. str_append k s;
}

abbrev live : Paystack.Client
live = Paystack.new_client "sk" ""

abbrev paystack_api : Paystack.Request → Reply
paystack_api (lookup url bearer) =
    if str_eq url "https://api.paystack.co/transaction/verify/r1"
    then replied 200 "success"
    else replied 404 ""
paystack_api r = unreachable

webhook_iff_example :
    (webhook paystack_formats "sk"
        (some (verify_transaction paystack_formats live paystack_api))
        "skr1"
        (some "r1")
      ≡ answer 200 (charge "r1" (pos 500) true ∷ []))
    ↔ (IsSigned paystack_formats "sk" "skr1" "r1" "r1" (pos 500)
        × IsConfirmed paystack_formats live paystack_api "r1")
webhook_iff_example = webhook_iff paystack_formats live paystack_api "sk" "skr1" "r1" "r1" (pos 500)

charged :
    webhook paystack_formats "sk"
      (some (verify_transaction paystack_formats live paystack_api))
      "skr1"
      (some "r1")
    ≡ answer 200 (charge "r1" (pos 500) true ∷ [])
unfolding webhook verify_transaction verify_signature
charged = refl
