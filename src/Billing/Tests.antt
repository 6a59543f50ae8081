-- ===== src/Billing/Tests.antt =====
-- Pushes by an admin and a viewer, and an unknown plan.
use geo_querry.Prelude.{
  String, ◌≡◌, refl, true, false, none, some, [], ◌∷◌, length, str_eq, if◌then◌else◌,
}
use geo_querry.Prelude.Int.{pos}
use geo_querry.Prelude.Outcome.{failure, success}
use geo_querry.Sync.Database.{Ids}
use geo_querry.Auth.Identity.{Identity}
use geo_querry.Auth.Roles.{role_rank}
use geo_querry.Billing.{BillingDb, Texts, BillingFaults, PushRequest, Fresh, not_admin}
use geo_querry.Billing.Catalog.{starter, pro, enterprise, get_price_catalog}
use geo_querry.Billing.Push.{push_response, initiate_mpesa_stk_push}

abbrev ids : Ids
ids = record { parses = λ s. true; cast = λ s. some s }

abbrev texts : Texts
texts = record {
  trim = λ s. s;
  upper = λ s. if str_eq s "usd" then "USD" else s;
  digits = λ n. "1";
  first_12 = λ s. s;
}

abbrev no_faults : BillingFaults
no_faults = record { simple_protocol = true; role_query = false; insert = false }

abbrev fresh : Fresh
fresh = record { uuid = "a1"; unix_nano = pos 1; unix_milli = pos 0 }

abbrev identity : String → Identity
identity user = record {
  user_id = user;
  subject = user;
  auth_time = pos 0;
  auth_methods = [];
  sudo_expires_at = none;
  is_service_auth = false;
}

abbrev db : BillingDb
db = record {
  plans = "tier_pro" ∷ [];
  organizations = "o1" ∷ [];
  memberships =
      record { organization_id = "o1"; user_id = "u1"; role = "admin" }
      ∷ record { organization_id = "o1"; user_id = "u2"; role = "viewer" }
      ∷ [];
  attempts = [];
}

abbrev request : String → PushRequest
request plan = record { organization_id = "o1"; phone_number = "254700000000"; plan_id = plan }

admin_stores :
    length
      ((initiate_mpesa_stk_push ids texts no_faults fresh
          (some (identity "u1"))
          (request "tier_pro")
          db).1
        ).attempts
    ≡ 1
unfolding initiate_mpesa_stk_push role_rank
admin_stores = refl

viewer_is_denied :
    initiate_mpesa_stk_push ids texts no_faults fresh (some (identity "u2")) (request "tier_pro") db
    ≡ (failure not_admin, db)
unfolding initiate_mpesa_stk_push role_rank
viewer_is_denied = refl

unknown_plan_is_answered :
    initiate_mpesa_stk_push ids texts no_faults fresh none (request "tier_gold") db
    ≡ (success (push_response fresh "tier_gold" "254700000000"), db)
unfolding initiate_mpesa_stk_push
unknown_plan_is_answered = refl

all_in_dollars : get_price_catalog texts "usd" ≡ starter ∷ pro ∷ enterprise ∷ []
unfolding get_price_catalog
all_in_dollars = refl
