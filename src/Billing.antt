-- ===== src/Billing.antt =====
-- The billing service of backend/internal/billing/service.go, over the tables of
-- backend/internal/db/migrations/000002 and 000004. strings.TrimSpace and strings.ToUpper are
-- arguments, and so are the clock and the fresh ids.
pub mod Catalog
pub mod Push
pub mod Checkout
pub mod Attempts
mod Tests
use Prim.Native.String.{◌++◌ as str_append}
use geo_querry.Prelude.{
  ℕ, ◌+◌, ◌*◌, String, Bool, true, false, not, ◌&&◌, ◌||◌, Option, none, some, List, [], ◌∷◌, ◌++◌,
  str_eq, if◌then◌else◌, any, filter, find, ltb,
}
use geo_querry.Prelude.Int.{ℤ, pos, ◌+ℤ◌}
use geo_querry.Prelude.Outcome.{Outcome, failure, success}
use geo_querry.Sync.Database.{Ids}
use geo_querry.Sync.Store.{cast_both}
use geo_querry.Auth.Identity.{Identity}
use geo_querry.Auth.Roles.{role_admin, role_rank}

pub record Plan : Type 0 where
  pub plan_id : String
  pub name : String
  pub description : String
  pub amount_minor_units : ℕ
  pub currency : String
  pub interval : String
  pub features : List String

pub record Membership : Type 0 where
  pub organization_id : String
  pub user_id : String
  pub role : String

pub record AttemptRow : Type 0 where
  pub id : String
  pub organization_id : String
  pub plan_id : String
  pub provider : String
  pub amount_minor_units : ℕ
  pub currency : String
  pub status : String
  pub provider_attempt_id : String
  pub customer_identifier : String

-- `plans` and `organizations` are the keys that the REFERENCES of payment_attempts point to.
pub record BillingDb : Type 0 where
  pub plans : List String
  pub organizations : List String
  pub memberships : List Membership
  pub attempts : List AttemptRow

pub data BillingError : Type 0 where
  invalid_organization : BillingError
  phone_required : BillingError
  plan_required : BillingError
  not_admin : BillingError

-- strings.TrimSpace, strings.ToUpper and the text of a number in %d.
pub record Texts : Type 0 where
  pub trim : String → String
  pub upper : String → String
  pub digits : ℤ → String
  pub first_12 : String → String

-- What the environment makes fail: the role query, and the transaction of the insert, whose error is
-- dropped, so that a COMMIT whose reply alone is lost is no fault here. `simple_protocol` is the
-- exec mode that DATABASE_URL chooses: in every other one PostgreSQL refuses `SET LOCAL … = $1`, with
-- which the transaction starts (db/tenant_tx.go).
pub record BillingFaults : Type 0 where
  pub simple_protocol : Bool
  pub role_query : Bool
  pub insert : Bool

pub record PushRequest : Type 0 where
  pub organization_id : String
  pub phone_number : String
  pub plan_id : String

pub record PushResponse : Type 0 where
  pub payment_attempt_id : String
  pub customer_message : String
  pub server_time : ℤ

-- The fresh UUID and the clock in nanoseconds and milliseconds.
pub record Fresh : Type 0 where
  pub uuid : String
  pub unix_nano : ℤ
  pub unix_milli : ℤ

abbrev pub is_member : String → String → Membership → Bool
is_member org_id user_id m = str_eq m.organization_id org_id && str_eq m.user_id user_id

-- `SELECT role … ` and its Scan: none where there is no row or the query fails
abbrev pub scan_role : Option Membership → Option String
scan_role none = none
scan_role (some m) = some m.role

abbrev pub lookup_role : Option (String × String) → BillingDb → Option String
lookup_role none db = none
lookup_role (some (org_id, user_id)) db = scan_role (find (is_member org_id user_id) db.memberships)

abbrev pub query_role : Ids → Bool → String → String → BillingDb → Option String
query_role ids fault org_id user_id db =
    if fault then none else lookup_role (cast_both ids org_id user_id) db

-- `err == nil && auth.RoleRank(role) < auth.RoleRank(auth.RoleAdmin)`
abbrev pub is_below_admin : Option String → Bool
is_below_admin none = false
is_below_admin (some role) = ltb (role_rank role) (role_rank role_admin)

-- the check of the caller, which no identity and no pool pass
abbrev pub is_denied : Ids → Bool → String → Option Identity → BillingDb → Bool
is_denied ids fault org_id none db = false
is_denied ids fault org_id (some id) db = is_below_admin (query_role ids fault org_id id.user_id db)

-- INSERT INTO payment_attempts … ON CONFLICT (id) DO NOTHING, with its two REFERENCES
abbrev pub insert_attempt : AttemptRow → BillingDb → BillingDb
insert_attempt row db =
    if any (λ a. str_eq a.id row.id) db.attempts
    then db
    else if any (λ o. str_eq o row.organization_id) db.organizations
        && any (λ p. str_eq p row.plan_id) db.plans
    then record db { attempts = db.attempts ++ row ∷ [] }
    else db

-- The transaction of the insert; its error is dropped.
abbrev pub record_attempt : Ids → BillingFaults → String → AttemptRow → BillingDb → BillingDb
record_attempt ids faults org_id row db = elim (ids.cast org_id) [
  | none ↦ db
  | some o ↦
      if not faults.simple_protocol || faults.insert
      then db
      else insert_attempt (record row { organization_id = o }) db
]
