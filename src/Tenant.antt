-- ===== src/Tenant.antt =====
-- Package tenant (backend/internal/tenant/service.go) and db.WithTenantTx, over the tables of
-- database/migrations. A statement is given the error that it fails with, if any; an identifier
-- is compared as the UUID that `ids.cast` makes of it.
pub mod Transactions
pub mod Transfer
pub mod Organizations
pub mod Projects
mod Tests
use geo_querry.Prelude.{
  ℕ, zero, suc, String, Bool, true, false, not, ◌&&◌, ◌||◌, Option, none, some, List, [], ◌∷◌, ◌++◌,
  map, str_eq, if◌then◌else◌, any, filter, find, ltb, ◌==◌, length,
}
use geo_querry.Prelude.Int.{ℤ, pos, negsuc, leb_ℤ}
use geo_querry.Sync.Conflict.{DbError, pg_error}
use geo_querry.Sync.Database.{Ids}
use geo_querry.Sync.Store.{cast_both, invalid_text}
use geo_querry.Sync.Pull.{order_by, deref}
use geo_querry.Auth.Identity.{Identity, has_active_sudo}
use geo_querry.Auth.Roles.{
  TenantRole, owner, role_owner, role_admin, role_geologist, string_to_proto_role, role_rank,
  can_transfer_ownership, Denial, sudo_required, forbidden,
}

pub record OrganizationRow : Type 0 where
  pub id : String
  pub name : String
  pub slug : String
  pub created_at : ℤ

pub record MemberRow : Type 0 where
  pub organization_id : String
  pub user_id : String
  pub role : String
  pub joined_at : ℤ

pub record ProjectRow : Type 0 where
  pub id : String
  pub organization_id : String
  pub name : String
  pub description : Option String
  pub target_commodity : Option String
  pub crs_epsg : String
  pub updated_at : ℤ
  pub is_deleted : Bool

pub record TenantDb : Type 0 where
  pub users : List String
  pub organizations : List OrganizationRow
  pub members : List MemberRow
  pub projects : List ProjectRow

-- Why a function or a transaction returned an error.
pub data Failure : Type 0 where
  database : DbError → Failure
  denied : Denial → Failure
  no_pool : Failure
  no_organization : Failure
  target_not_member : Failure

pub data Attempt (A : Type 0) : Type 0 where
  done : A → Attempt A
  failed : Failure → Attempt A

-- The error codes of connect, with what the error wraps.
pub data Reply (A : Type 0) : Type 0 where
  response : A → Reply A
  unauthenticated : Reply A
  invalid_argument : Reply A
  permission_denied : Failure → Reply A
  already_exists : Failure → Reply A
  internal : Failure → Reply A

-- What the environment does to the statements of one call, in their order: `commit` is a COMMIT that
-- the server refuses, `commit_reply` one that it carries out and whose reply is lost.
-- `simple_protocol` is the exec mode that DATABASE_URL chooses: in it pgx writes an argument into the
-- text of the statement, in every other one PostgreSQL refuses `SET LOCAL … = $1`.
pub record Faults : Type 0 where
  pub simple_protocol : Bool
  pub lookup : Option DbError
  pub begin : Option DbError
  pub scope : Option DbError
  pub first : Option DbError
  pub second : Option DbError
  pub commit : Option DbError
  pub commit_reply : Option DbError

abbrev pub is_member : String → String → MemberRow → Bool
is_member org_id user_id m = str_eq m.organization_id org_id && str_eq m.user_id user_id

-- the role of a user in an organization
abbrev pub role_of : String → String → List MemberRow → Option String
role_of org_id user_id [] = none
role_of org_id user_id (m ∷ ms) =
    let rest = role_of org_id user_id ms in if is_member org_id user_id m then some m.role else rest

abbrev found_role : Option String → Attempt String
found_role none = failed (denied forbidden)
found_role (some role) = done role

abbrev lookup_role : Option (String × String) → TenantDb → Attempt String
lookup_role none db = failed (database invalid_text)
lookup_role (some (org_id, user_id)) db = found_role (role_of org_id user_id db.members)

-- getCallerRole; no pool is none.
unfoldable pub get_caller_role :
    Ids → Option DbError → Option TenantDb → String → String → Attempt String
get_caller_role ids fault none org_id user_id = done role_owner
get_caller_role ids (some e) (some db) org_id user_id = failed (database e)
get_caller_role ids none (some db) org_id user_id = lookup_role (cast_both ids org_id user_id) db

-- a statement of a transaction, or a step of it
abbrev pub step :
    {A : Type 0}
    → Option DbError
    → (TenantDb → Attempt A × TenantDb)
    → TenantDb
    → Attempt A × TenantDb
step (some e) run db = (failed (database e), db)
step none run db = run db

-- COMMIT keeps what the transaction did, also where its reply is lost; without it the deferred
-- ROLLBACK undoes it.
abbrev pub finish_tx :
    {A : Type 0}
    → (commit commit_reply : Option DbError) → TenantDb
    → Attempt A × TenantDb
    → Attempt A × TenantDb
finish_tx commit lost before (failed e, after) = (failed e, before)
finish_tx (some e) lost before (done a, after) = (failed (database e), before)
finish_tx none (some e) before (done a, after) = (failed (database e), after)
finish_tx none none before (done a, after) = (done a, after)

abbrev pub set_local_refused : DbError
set_local_refused = pg_error "42601" "syntax error at or near $1"

-- SET LOCAL app.current_organization_id = $1
abbrev pub set_local :
    {A : Type 0} → Faults → (TenantDb → Attempt A × TenantDb) → TenantDb → Attempt A × TenantDb
set_local faults run db =
    if faults.simple_protocol
    then step faults.scope run db
    else (failed (database set_local_refused), db)

-- WithTenantTx, on a pool that is not nil
unfoldable pub with_tenant_tx :
    {A : Type 0}
    → Faults
    → String
    → (TenantDb → Attempt A × TenantDb)
    → TenantDb
    → Attempt A × TenantDb
with_tenant_tx faults org_id fn db =
    if str_eq org_id ""
    then (failed no_organization, db)
    else step faults.begin
        (set_local faults (λ db'. finish_tx faults.commit faults.commit_reply db' (fn db'))) db

-- UPDATE organization_members SET role = … WHERE organization_id = $1 AND user_id = $2
unfoldable pub set_role : String → String → String → List MemberRow → List MemberRow
set_role org_id user_id role [] = []
set_role org_id user_id role (m ∷ ms) =
    (if is_member org_id user_id m then record m { role = role } else m)
    ∷ set_role org_id user_id role ms

-- its RowsAffected
unfoldable pub rows_affected : String → String → List MemberRow → ℕ
rows_affected org_id user_id [] = 0
rows_affected org_id user_id (m ∷ ms) =
    let rest = rows_affected org_id user_id ms in
    if is_member org_id user_id m then suc rest else rest

abbrev pub with_members : TenantDb → List MemberRow → TenantDb
with_members db ms = record db { members = ms }

-- the second statement of the transfer
unfoldable pub promote : String → String → TenantDb → Attempt Unit × TenantDb
unfolding set_role rows_affected
promote org_id target db =
    if rows_affected org_id target db.members == 0
    then (failed target_not_member, db)
    else (done tt, with_members db (set_role org_id target role_owner db.members))

-- a statement on a row that two identifiers name
abbrev pub on_cast :
    {A : Type 0}
    → Option (String × String)
    → (String → String → TenantDb → Attempt A × TenantDb)
    → TenantDb
    → Attempt A × TenantDb
on_cast none run db = (failed (database invalid_text), db)
on_cast (some (a, b)) run db = run a b db

-- the body of the transfer's transaction
unfoldable pub transfer_body :
    Ids → Faults → String → String → String → TenantDb → Attempt Unit × TenantDb
unfolding set_role promote
transfer_body ids faults org_id caller target = step faults.first (
    on_cast (cast_both ids org_id caller) (λ o c db.
      step faults.second (on_cast (cast_both ids org_id target) promote)
        (with_members db (set_role o c role_admin db.members))))

abbrev pub of_tx : Attempt Unit × Option TenantDb → Reply Bool × Option TenantDb
of_tx (done u, db) = (response true, db)
of_tx (failed e, db) = (internal e, db)

-- the end of the transfer, once it is allowed
unfoldable pub transfer_rows :
    Ids → Faults → String → String → String → Option TenantDb → Reply Bool × Option TenantDb
unfolding with_tenant_tx transfer_body
transfer_rows ids faults org_id caller target none = (response true, none)
transfer_rows ids faults org_id caller target (some db) =
    let (result, db') =
      with_tenant_tx faults org_id (transfer_body ids faults org_id caller target) db in
    of_tx (result, some db')

abbrev pub if_allowed :
    {A : Type 0}
    → Option Denial
    → Reply A × Option TenantDb
    → Option TenantDb
    → Reply A × Option TenantDb
if_allowed none next db = next
if_allowed (some d) next db = (permission_denied (denied d), db)

-- `role, err := getCallerRole(…); if err != nil { return PermissionDenied }`
abbrev pub with_role :
    {A : Type 0}
    → Attempt String
    → Option TenantDb
    → (String → Reply A × Option TenantDb)
    → Reply A × Option TenantDb
with_role (failed e) db next = (permission_denied e, db)
with_role (done role) db next = next role

-- `ident, ok := auth.GetIdentity(ctx); if !ok || ident.UserID == ""`
abbrev pub with_identity :
    {A : Type 0}
    → Option Identity
    → Option TenantDb
    → (Identity → Reply A × Option TenantDb)
    → Reply A × Option TenantDb
with_identity none db next = (unauthenticated, db)
with_identity (some ident) db next =
    if str_eq ident.user_id "" then (unauthenticated, db) else next ident

-- TransferOrganizationOwnership, with the clock in nanoseconds
unfoldable pub transfer_organization_ownership :
    Ids
    → Faults
    → ℤ
    → Option Identity
    → String
    → String
    → Option TenantDb
    → Reply Bool × Option TenantDb
unfolding get_caller_role transfer_rows can_transfer_ownership has_active_sudo
transfer_organization_ownership ids faults now caller org_id target db =
    with_identity caller db λ ident.
      if str_eq org_id "" || str_eq target ""
      then (invalid_argument, db)
      else with_role (get_caller_role ids faults.lookup db org_id ident.user_id) db λ role.
        if_allowed (can_transfer_ownership role (has_active_sudo (some ident) now))
          (transfer_rows ids faults org_id ident.user_id target db) db
