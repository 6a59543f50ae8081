-- ===== src/Auth/Sessions/Exchange.antt =====
-- What ExchangeAssertion answers.
use Prim.Native.String.{◌++◌ as str_append}
use geo_querry.Prelude.{String, ◌≡◌, ◌≢◌, Option, none, some}
use geo_querry.Prelude.Int.{ℤ}
use geo_querry.Prelude.Outcome.{Outcome, failure, success}
use geo_querry.Sync.Database.{Ids}
use geo_querry.Assertion.{
  Claims, Codec, Verifier, VerifyError, accept, reject, verify, claims_have_active_sudo,
}
use geo_querry.Auth.Sessions.{
  AuthDb, UserRow, AuthFaults, AuthError, token_required, verifier_missing, invalid_assertion,
  user_query_failed, ExchangeResponse, query_failed, row, unix, query_user,
}

-- Every way in which an exchange ends.
pub data Exchanged (ids : Ids) (codec : Codec) (verifier : Option Verifier) (faults : AuthFaults)
    (now : ℤ) (token : String) (db : AuthDb) : Outcome AuthError ExchangeResponse → Type 0 where
  no_token : token ≡ "" → Exchanged ids codec verifier faults now token db (failure token_required)
  no_verifier :
      token ≢ ""
      → verifier ≡ none
      → Exchanged ids codec verifier faults now token db (failure verifier_missing)
  rejected :
      (v : Verifier) (e : VerifyError)
      → token ≢ ""
      → verifier ≡ some v
      → verify codec v token (unix now) ≡ reject e
      → Exchanged ids codec verifier faults now token db (failure (invalid_assertion e))
  unread :
      (v : Verifier) (claims : Claims)
      → token ≢ ""
      → verifier ≡ some v
      → verify codec v token (unix now) ≡ accept claims
      → query_user ids faults.users claims.subject db ≡ query_failed
      → Exchanged ids codec verifier faults now token db (failure user_query_failed)
  answered :
      (v : Verifier) (claims : Claims) (res : ExchangeResponse) (r : Option UserRow)
      → token ≢ ""
      → verifier ≡ some v
      → verify codec v token (unix now) ≡ accept claims
      → query_user ids faults.users claims.subject db ≡ row r
      → res.user.user_id ≡ claims.subject
      → res.user.email ≢ ""
      → res.server_time ≡ unix now
      → res.sudo_active ≡ claims_have_active_sudo claims (unix now)
      → Exchanged ids codec verifier faults now token db (success res)
