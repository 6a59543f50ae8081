-- ===== src/Billing/Attempts.antt =====
-- Which pushes are denied and which payment attempts they store.
use geo_querry.Prelude.{
  ◌*◌, String, ◌≡◌, Bool, true, false, Option, none, some, [], ◌∷◌, ◌++◌, str_eq, any, ltb, ◌≢◌,
}
use geo_querry.Prelude.Outcome.{Outcome, failure, success}
use geo_querry.Sync.Database.{Ids}
use geo_querry.Auth.Identity.{Identity}
use geo_querry.Auth.Roles.{role_rank, role_admin}
use geo_querry.Billing.{
  AttemptRow, BillingDb, BillingError, invalid_organization, phone_required, plan_required,
  not_admin, BillingFaults, PushResponse, Fresh, query_role,
}
use geo_querry.Billing.Catalog.{plan_for}
use geo_querry.Billing.Push.{push_response}

-- The role query finds a role below admin.
pub IsBelow : Ids → Bool → String → Option Identity → BillingDb → Type 0
IsBelow ids fault org_id identity db =
    (id : Identity) × (role : String) × (identity ≡ some id)
    × (query_role ids fault org_id id.user_id db ≡ some role)
    × (ltb (role_rank role) (role_rank role_admin) ≡ true)

-- One new pending attempt, of a known plan and organization, at 130 times the plan's price.
pub record IsRecorded (ids : Ids) (fresh : Fresh) (org_id phone plan_id : String)
    (db db' : BillingDb) : Type 0 where
  pub row : AttemptRow
  pub appended : db' ≡ record db { attempts = db.attempts ++ row ∷ [] }
  pub fresh_id : row.id ≡ fresh.uuid
  pub unused : any (λ a. str_eq a.id row.id) db.attempts ≡ false
  pub organization : ids.cast org_id ≡ some row.organization_id
  pub organization_known : any (λ o. str_eq o row.organization_id) db.organizations ≡ true
  pub plan : row.plan_id ≡ plan_id
  pub plan_known : any (λ p. str_eq p plan_id) db.plans ≡ true
  pub amount : row.amount_minor_units ≡ (plan_for plan_id).amount_minor_units * 130
  pub pending : row.status ≡ "PENDING"
  pub payer : row.customer_identifier ≡ phone

-- Why an answered push stores no attempt.
pub data Unrecorded (ids : Ids) (faults : BillingFaults) (fresh : Fresh) (org_id plan_id : String)
    (db : BillingDb) : Type 0 where
  default_protocol : faults.simple_protocol ≡ false → Unrecorded ids faults fresh org_id plan_id db
  insert_failed : faults.insert ≡ true → Unrecorded ids faults fresh org_id plan_id db
  unreadable : ids.cast org_id ≡ none → Unrecorded ids faults fresh org_id plan_id db
  id_used :
      any (λ a. str_eq a.id fresh.uuid) db.attempts ≡ true
      → Unrecorded ids faults fresh org_id plan_id db
  organization_unknown :
      (o : String)
      → ids.cast org_id ≡ some o
      → any (λ x. str_eq x o) db.organizations ≡ false
      → Unrecorded ids faults fresh org_id plan_id db
  plan_unknown :
      any (λ p. str_eq p plan_id) db.plans ≡ false → Unrecorded ids faults fresh org_id plan_id db

-- The fields that a push needs.
pub record IsComplete (ids : Ids) (org_id phone plan_id : String) : Type 0 where
  pub organization : ids.parses org_id ≡ true
  pub payer : phone ≢ ""
  pub plan : plan_id ≢ ""

-- What a push with these trimmed fields comes to; no two of the cases hold together.
pub data Pushed (ids : Ids) (faults : BillingFaults) (fresh : Fresh) (identity : Option Identity)
    (org_id phone plan_id : String) (db : BillingDb)
    : Outcome BillingError PushResponse × BillingDb → Type 0 where
  bad_organization :
      ids.parses org_id ≡ false
      → Pushed ids faults fresh identity org_id phone plan_id db (failure invalid_organization, db)
  no_phone :
      ids.parses org_id ≡ true
      → phone ≡ ""
      → Pushed ids faults fresh identity org_id phone plan_id db (failure phone_required, db)
  no_plan :
      ids.parses org_id ≡ true
      → phone ≢ ""
      → plan_id ≡ ""
      → Pushed ids faults fresh identity org_id phone plan_id db (failure plan_required, db)
  denied :
      IsComplete ids org_id phone plan_id
      → IsBelow ids faults.role_query org_id identity db
      → Pushed ids faults fresh identity org_id phone plan_id db (failure not_admin, db)
  unrecorded :
      IsComplete ids org_id phone plan_id
      → ¬ IsBelow ids faults.role_query org_id identity db
      → Unrecorded ids faults fresh org_id plan_id db
      → Pushed ids faults fresh identity org_id phone plan_id db
          (success (push_response fresh plan_id phone), db)
  recorded :
      (db' : BillingDb)
      → IsComplete ids org_id phone plan_id
      → ¬ IsBelow ids faults.role_query org_id identity db
      → faults.simple_protocol ≡ true
      → faults.insert ≡ false
      → IsRecorded ids fresh org_id phone plan_id db db'
      → Pushed ids faults fresh identity org_id phone plan_id db
          (success (push_response fresh plan_id phone), db')
