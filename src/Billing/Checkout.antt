-- ===== src/Billing/Checkout.antt =====
-- CreateStripeCheckoutSession and GetSubscriptionStatus of backend/internal/billing/service.go.
use Prim.Native.String.{◌++◌ as str_append}
use geo_querry.Prelude.{◌*◌, String, Bool, false, not, List, [], ◌∷◌, str_eq, if◌then◌else◌}
use geo_querry.Prelude.Int.{ℤ, pos, ◌+ℤ◌}
use geo_querry.Prelude.Outcome.{Outcome, failure, success}
use geo_querry.Sync.Database.{Ids}
use geo_querry.Billing.{BillingError, invalid_organization, plan_required, Texts}

pub record CheckoutSession : Type 0 where
  pub checkout_session_id : String
  pub checkout_url : String

-- CreateStripeCheckoutSession; `first_12` cuts the fresh UUID at twelve bytes.
unfoldable pub create_stripe_checkout_session :
    Ids → Texts → String → String → String → Outcome BillingError CheckoutSession
create_stripe_checkout_session ids texts uuid organization_id plan_id =
    let session_id = str_append "cs_live_" (texts.first_12 uuid) in
    if not (ids.parses (texts.trim organization_id))
    then failure invalid_organization
    else if str_eq (texts.trim plan_id) ""
    then failure plan_required
    else success (record {
      checkout_session_id = session_id;
      checkout_url = str_append "https://checkout.stripe.com/c/pay/" session_id;
    })

pub data SubscriptionStatus : Type 0 where
  unspecified inactive trialing active past_due canceled unpaid : SubscriptionStatus

pub record Subscription : Type 0 where
  pub organization_id : String
  pub plan_id : String
  pub status : SubscriptionStatus
  pub current_period_end : ℤ
  pub cancel_at_period_end : Bool
  pub entitlements : List String

-- GetSubscriptionStatus, at `now` in milliseconds: every organization has the enterprise plan.
unfoldable pub get_subscription_status :
    Ids → Texts → ℤ → String → Outcome BillingError Subscription
get_subscription_status ids texts now organization_id =
    if not (ids.parses (texts.trim organization_id))
    then failure invalid_organization
    else success (record {
      organization_id = texts.trim organization_id;
      plan_id = "tier_enterprise";
      status = active;
      current_period_end = now +ℤ pos (30 * 24 * 3600000);
      cancel_at_period_end = false;
      entitlements =
          "export_shapefile" ∷ "gis_las_processing" ∷ "team_telemetry" ∷ "postgis_concessions"
          ∷ "river_durable_workers" ∷ "unlimited_structural_stations" ∷ [];
    })
