-- ===== src/Billing/Push.antt =====
-- InitiateMpesaStkPush of backend/internal/billing/service.go.
use Prim.Native.String.{◌++◌ as str_append}
use geo_querry.Prelude.{◌*◌, String, not, Option, str_eq, if◌then◌else◌}
use geo_querry.Prelude.Outcome.{Outcome, failure, success}
use geo_querry.Sync.Database.{Ids}
use geo_querry.Auth.Identity.{Identity}
use geo_querry.Billing.{
  AttemptRow, BillingDb, BillingError, invalid_organization, phone_required, plan_required,
  not_admin, Texts, BillingFaults, PushRequest, PushResponse, Fresh, is_denied, record_attempt,
}
use geo_querry.Billing.Catalog.{plan_for}

-- The row of a payment attempt.
abbrev pub attempt_row : Texts → Fresh → String → String → String → AttemptRow
attempt_row texts fresh org_id plan_id phone = record {
  id = fresh.uuid;
  organization_id = org_id;
  plan_id = plan_id;
  provider = "mpesa";
  amount_minor_units = (plan_for plan_id).amount_minor_units * 130;
  currency = "KES";
  status = "PENDING";
  provider_attempt_id = str_append "ws_CO_" (texts.digits fresh.unix_nano);
  customer_identifier = phone;
}

abbrev pub push_response : Fresh → String → String → PushResponse
push_response fresh plan_id phone = record {
  payment_attempt_id = fresh.uuid;
  customer_message = str_append "M-Pesa STK push initiated for plan '" (
      str_append (plan_for plan_id).name
        (str_append "' to " (str_append phone ". Enter your M-Pesa PIN on your phone.")));
  server_time = fresh.unix_milli;
}

-- InitiateMpesaStkPush, from the check of the caller on
abbrev pub push_checked :
    Ids
    → Texts
    → BillingFaults
    → Fresh
    → Option Identity
    → String
    → String
    → String
    → BillingDb
    → Outcome BillingError PushResponse × BillingDb
push_checked ids texts faults fresh identity org_id phone plan_id db =
    if is_denied ids faults.role_query org_id identity db then (failure not_admin, db) else (
      success (push_response fresh plan_id phone),
      record_attempt ids faults org_id (attempt_row texts fresh org_id plan_id phone) db,
    )

-- InitiateMpesaStkPush, on the trimmed fields
abbrev pub push_trimmed :
    Ids
    → Texts
    → BillingFaults
    → Fresh
    → Option Identity
    → String
    → String
    → String
    → BillingDb
    → Outcome BillingError PushResponse × BillingDb
push_trimmed ids texts faults fresh identity org_id phone plan_id db =
    if not (ids.parses org_id)
    then (failure invalid_organization, db)
    else if str_eq phone ""
    then (failure phone_required, db)
    else if str_eq plan_id ""
    then (failure plan_required, db)
    else push_checked ids texts faults fresh identity org_id phone plan_id db

-- InitiateMpesaStkPush, on a pool that is not nil
unfoldable pub initiate_mpesa_stk_push :
    Ids
    → Texts
    → BillingFaults
    → Fresh
    → Option Identity
    → PushRequest
    → BillingDb
    → Outcome BillingError PushResponse × BillingDb
initiate_mpesa_stk_push ids texts faults fresh identity req db =
    push_trimmed ids texts faults fresh identity (texts.trim req.organization_id)
      (texts.trim req.phone_number) (texts.trim req.plan_id) db
