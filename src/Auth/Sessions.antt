-- ===== src/Auth/Sessions.antt =====
-- The auth service of backend/internal/auth/service.go, on a pool that is not nil. Instants are in
-- nanoseconds; users.id is a UUID, which `ids.cast` reads.
pub mod Exchange
mod Tests
use Prim.Native.String.{◌++◌ as str_append}
use Prim.Native.Nat.{◌/◌}
use geo_querry.Prelude.{
  ℕ, ◌*◌, ◌^◌, String, Bool, true, false, not, ◌&&◌, ◌||◌, Option, none, some, List, [], ◌∷◌,
  str_eq, if◌then◌else◌, find,
}
use geo_querry.Prelude.Int.{ℤ, pos, negsuc, ◌+ℤ◌}
use geo_querry.Prelude.Outcome.{Outcome, failure, success}
use geo_querry.Sync.Database.{Ids}
use geo_querry.Assertion.{
  Claims, Codec, Verifier, VerifyError, Verdict, accept, reject, verify, claims_have_active_sudo,
}
use geo_querry.Auth.Identity.{Identity, has_active_sudo}

pub record UserRow : Type 0 where
  pub id : String
  pub full_name : String
  pub email : String

-- A column of neon_auth may be NULL.
pub record NeonUser : Type 0 where
  pub id : String
  pub name : Option String
  pub email : Option String

pub record SessionRow : Type 0 where
  pub user_id : String
  pub status : String
  pub sudo_expires_at : Option ℤ
  pub updated_at : ℤ

pub record AuthDb : Type 0 where
  pub users : List UserRow
  pub neon_users : List NeonUser
  pub sessions : List SessionRow

-- Which statements the environment makes fail.
pub record AuthFaults : Type 0 where
  pub users : Bool
  pub neon : Bool
  pub update : Bool

pub data AuthError : Type 0 where
  token_required : AuthError
  verifier_missing : AuthError
  invalid_assertion : VerifyError → AuthError
  user_query_failed : AuthError
  unauthenticated : AuthError
  challenge_required : AuthError

pub record Profile : Type 0 where
  pub user_id : String
  pub email : String
  pub display_name : String

pub record ExchangeResponse : Type 0 where
  pub user : Profile
  pub server_time : ℤ
  pub sudo_active : Bool

pub record SudoResponse : Type 0 where
  pub success : Bool
  pub sudo_expires_at : ℤ

pub record SessionResponse : Type 0 where
  pub user : Profile
  pub sudo_active : Bool
  pub sudo_expires_at : ℤ

-- Unix of an instant: whole seconds, rounded down
abbrev pub unix : ℤ → ℤ
unix (pos n) = pos (n / 10 ^ 9)
unix (negsuc n) = negsuc (n / 10 ^ 9)

abbrev pub coalesce : Option String → String
coalesce none = ""
coalesce (some s) = s

abbrev pub neon_names : Option NeonUser → String × String
neon_names none = ("", "")
neon_names (some u) = (coalesce u.name, coalesce u.email)

-- lookupNeonAuthUser: the display name and the email
abbrev pub lookup_neon_auth_user : Bool → String → AuthDb → String × String
lookup_neon_auth_user fault user_id db =
    if fault then ("", "") else neon_names (find (λ u. str_eq u.id user_id) db.neon_users)

-- a query of the users: a row, no row, or an error
pub data UserQuery : Type 0 where
  query_failed : UserQuery
  row : Option UserRow → UserQuery

abbrev pub cast_user : Option String → AuthDb → UserQuery
cast_user none db = query_failed
cast_user (some id) db = row (find (λ u. str_eq u.id id) db.users)

abbrev pub query_user : Ids → Bool → String → AuthDb → UserQuery
query_user ids fault user_id db = if fault then query_failed else cast_user (ids.cast user_id) db

-- the two columns, which stay empty without a row
abbrev pub scanned : UserQuery → String × String
scanned query_failed = ("", "")
scanned (row none) = ("", "")
scanned (row (some u)) = (u.full_name, u.email)

-- `if email == "" { … }`, twice: the profile of Neon, or a synthesized one under `name`
abbrev pub or_synthesized : String → String → String × String → Profile
or_synthesized name user_id (display_name, email) =
    if str_eq email ""
    then record {
      user_id = user_id;
      email = str_append user_id "@geoquerry.local";
      display_name = name;
    }
    else record { user_id = user_id; email = email; display_name = display_name }

abbrev pub profile_of : Bool → String → String → AuthDb → String × String → Profile
profile_of fault name user_id db (display_name, email) =
    or_synthesized name user_id
      (if str_eq email "" then lookup_neon_auth_user fault user_id db else (display_name, email))

-- ExchangeAssertion, on what the query of the users gives
abbrev pub exchange_user :
    AuthFaults → ℤ → Claims → AuthDb → UserQuery → Outcome AuthError ExchangeResponse
exchange_user faults now claims db query_failed = failure user_query_failed
exchange_user faults now claims db (row r) = success (record {
  user = profile_of faults.neon "Field Geologist" claims.subject db (scanned (row r));
  server_time = unix now;
  sudo_active = claims_have_active_sudo claims (unix now);
})

abbrev pub exchange_verdict :
    Ids → AuthFaults → ℤ → AuthDb → Verdict → Outcome AuthError ExchangeResponse
exchange_verdict ids faults now db (reject e) = failure (invalid_assertion e)
exchange_verdict ids faults now db (accept claims) =
    exchange_user faults now claims db (query_user ids faults.users claims.subject db)

abbrev pub exchange_verified :
    Ids
    → Codec
    → Option Verifier
    → AuthFaults
    → ℤ
    → String
    → AuthDb
    → Outcome AuthError ExchangeResponse
exchange_verified ids codec none faults now token db = failure verifier_missing
exchange_verified ids codec (some v) faults now token db =
    exchange_verdict ids faults now db (verify codec v token (unix now))

-- ExchangeAssertion
unfoldable pub exchange_assertion :
    Ids
    → Codec
    → Option Verifier
    → AuthFaults
    → ℤ
    → String
    → AuthDb
    → Outcome AuthError ExchangeResponse
exchange_assertion ids codec verifier faults now token db =
    if str_eq token ""
    then failure token_required
    else exchange_verified ids codec verifier faults now token db

-- UPDATE user_sessions SET sudo_expires_at = …, updated_at = … WHERE user_id = … AND status = 'ACTIVE'
abbrev pub elevate : ℤ → ℤ → String → List SessionRow → List SessionRow
elevate expiry now user_id [] = []
elevate expiry now user_id (s ∷ ss) =
    (if str_eq s.user_id user_id && str_eq s.status "ACTIVE"
      then record s { sudo_expires_at = some expiry; updated_at = now }
      else s)
    ∷ elevate expiry now user_id ss

abbrev pub elevate_cast : ℤ → Option String → AuthDb → AuthDb
elevate_cast now none db = db
elevate_cast now (some id) db = record db {
  sessions = elevate (now +ℤ pos (900 * 10 ^ 9)) now id db.sessions;
}

abbrev pub verify_sudo_of :
    Ids
    → AuthFaults
    → ℤ
    → String
    → String
    → String
    → AuthDb
    → Outcome AuthError SudoResponse × AuthDb
verify_sudo_of ids faults now user_id password totp_code db =
    if str_eq user_id ""
    then (failure unauthenticated, db)
    else if str_eq password "" && str_eq totp_code ""
    then (failure challenge_required, db)
    else (
      Outcome.success
          (record { success = true; sudo_expires_at = unix (now +ℤ pos (900 * 10 ^ 9)) }),
      if faults.update then db else elevate_cast now (ids.cast user_id) db,
    )

-- VerifySudo
unfoldable pub verify_sudo :
    Ids
    → AuthFaults
    → ℤ
    → Option Identity
    → String
    → String
    → AuthDb
    → Outcome AuthError SudoResponse × AuthDb
verify_sudo ids faults now none password totp_code db = (failure unauthenticated, db)
verify_sudo ids faults now (some identity) password totp_code db =
    verify_sudo_of ids faults now identity.user_id password totp_code db

abbrev pub unix_or_zero : Option ℤ → ℤ
unix_or_zero none = pos 0
unix_or_zero (some t) = unix t

-- GetSessionContext
unfoldable pub get_session_context :
    Ids → AuthFaults → ℤ → Option Identity → AuthDb → Outcome AuthError SessionResponse
unfolding has_active_sudo
get_session_context ids faults now none db = failure unauthenticated
get_session_context ids faults now (some identity) db =
    if str_eq identity.user_id ""
    then failure unauthenticated
    else success (record {
      user =
          profile_of faults.neon "Active User" identity.user_id db
            (scanned (query_user ids faults.users identity.user_id db));
      sudo_active = has_active_sudo (some identity) now;
      sudo_expires_at = unix_or_zero identity.sudo_expires_at;
    })
