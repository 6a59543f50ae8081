-- ===== src/Auth/Sessions/Tests.antt =====
-- An exchange of a token that is accepted, for a user whom only Neon knows, and two elevations.
use geo_querry.Prelude.{
  String, ◌≡◌, refl, true, false, none, some, [], ◌∷◌, str_eq, if◌then◌else◌, ◌&&◌,
}
use geo_querry.Prelude.Int.{pos, ◌+ℤ◌, ◌-ℤ◌, wrap64}
use geo_querry.Prelude.Outcome.{failure, success}
use geo_querry.Sync.Database.{Ids}
use geo_querry.Assertion.{Claims, Codec, Verifier, verify, claims_have_active_sudo}
use geo_querry.Auth.Identity.{Identity}
use geo_querry.Auth.Sessions.{
  AuthDb, AuthFaults, SessionRow, exchange_assertion, verify_sudo, challenge_required,
}

abbrev claims : Claims
claims = record {
  issuer = "i";
  audience = "a";
  subject = "u";
  expires_at = pos 300;
  not_before = pos 95;
  issued_at = pos 100;
  token_id = "t";
  auth_time = pos 90;
  auth_method_refs = [];
  sudo_expires_at = pos 0;
  roles = none;
  permissions = none;
  organizations = none;
  tenant_id = none;
}

abbrev codec : Codec
codec = record {
  split_dots = λ s. if str_eq s "h.c.s" then "h" ∷ "c" ∷ "s" ∷ [] else s ∷ [];
  join = λ a b. "h.c";
  trim = λ s. s;
  decode = λ s. some s;
  header_of = λ s. some (record { algorithm = "Ed25519"; key_id = "k1"; kind = "GEO-ASSERTION" });
  keys_of = λ s. some ("iss" ∷ "sub" ∷ []);
  claims_of = λ s. if str_eq s "c" then some claims else none;
  signed = λ k m s. str_eq k "key" && str_eq s "s";
}

abbrev verifier : Verifier
verifier = record { ring = ("k1", "key") ∷ []; expected_issuer = "i"; expected_audience = "a" }

abbrev ids : Ids
ids = record { parses = λ s. true; cast = λ s. some s }

abbrev no_faults : AuthFaults
no_faults = record { users = false; neon = false; update = false }

abbrev session : String → SessionRow
session status = record {
  user_id = "u";
  status = status;
  sudo_expires_at = none;
  updated_at = pos 0;
}

abbrev db : AuthDb
db = record {
  users = [];
  neon_users = record { id = "u"; name = some "Asha"; email = some "asha@example.org" } ∷ [];
  sessions = session "REVOKED" ∷ session "ACTIVE" ∷ [];
}

known_to_neon :
    exchange_assertion ids codec (some verifier) no_faults (pos 200000000000) "h.c.s" db
    ≡ success (record {
      user = record { user_id = "u"; email = "asha@example.org"; display_name = "Asha" };
      server_time = pos 200;
      sudo_active = false;
    })
unfolding exchange_assertion verify claims_have_active_sudo wrap64 ◌+ℤ◌ ◌-ℤ◌
known_to_neon = refl

abbrev identity : Identity
identity = record {
  user_id = "u";
  subject = "u";
  auth_time = pos 0;
  auth_methods = [];
  sudo_expires_at = none;
  is_service_auth = false;
}

-- any password elevates the active sessions
any_password : (verify_sudo ids no_faults (pos 0) (some identity) "wrong" "" db).1 ≡ record db {
  sessions =
      session "REVOKED"
      ∷ record (session "ACTIVE") { sudo_expires_at = some (pos 900000000000) }
      ∷ [];
}
unfolding verify_sudo ◌+ℤ◌
any_password = refl

no_password :
    verify_sudo ids no_faults (pos 0) (some identity) "" "" db ≡ (failure challenge_required, db)
unfolding verify_sudo
no_password = refl
