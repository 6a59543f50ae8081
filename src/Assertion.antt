-- ===== src/Assertion.antt =====
-- The identity assertions of backend/pkg/assertion/assertion.go: how a signed token is verified.
-- base64, JSON, Ed25519, strings.Split and strings.TrimSpace are not of the repository: they are
-- the fields of `Codec`. The clock is an argument, in Unix seconds.
pub mod Authentic
pub mod Accepted
pub mod Sign
mod Tests
use geo_querry.Prelude.{
  ℕ, String, Bool, true, false, not, ◌&&◌, Option, none, some, List, [], ◌∷◌, str_eq, if◌then◌else◌,
  any, find,
}
use geo_querry.Prelude.Int.{ℤ, pos, ◌+ℤ◌, ◌-ℤ◌, ltb_ℤ, leb_ℤ, wrap64}

pub record Header : Type 0 where
  pub algorithm : String
  pub key_id : String
  pub kind : String

-- A field of type `any` is the text of its JSON value, or none.
pub record Claims : Type 0 where
  pub issuer : String
  pub audience : String
  pub subject : String
  pub expires_at : ℤ
  pub not_before : ℤ
  pub issued_at : ℤ
  pub token_id : String
  pub auth_time : ℤ
  pub auth_method_refs : List String
  pub sudo_expires_at : ℤ
  pub roles : Option String
  pub permissions : Option String
  pub organizations : Option String
  pub tenant_id : Option String

-- Byte strings and keys are text here; nothing looks into them.
pub record Codec : Type 0 where
  pub split_dots : String → List String
  pub join : String → String → String
  pub trim : String → String
  pub decode : String → Option String
  pub header_of : String → Option Header
  pub keys_of : String → Option (List String)
  pub claims_of : String → Option Claims
  pub signed : String → String → String → Bool

-- KeyRing: the public keys by key id.
abbrev pub KeyRing : Type 0
KeyRing = List (String × String)

pub record Verifier : Type 0 where
  pub ring : KeyRing
  pub expected_issuer : String
  pub expected_audience : String

abbrev pub default_issuer : String
default_issuer = "geoquerry-web-bff"

abbrev pub default_audience : String
default_audience = "geoquerry-core-backend"

-- NewVerifier
unfoldable pub new_verifier : KeyRing → String → String → Verifier
new_verifier ring expected_issuer expected_audience = record {
  ring = ring;
  expected_issuer = if str_eq expected_issuer "" then default_issuer else expected_issuer;
  expected_audience = if str_eq expected_audience "" then default_audience else expected_audience;
}

pub data VerifyError : Type 0 where
  invalid_format : VerifyError
  invalid_signature : VerifyError
  unknown_key_id : VerifyError
  expired : VerifyError
  premature : VerifyError
  excessive_lifetime : VerifyError
  invalid_issuer : VerifyError
  invalid_audience : VerifyError
  forbidden_claims_found : VerifyError
  empty_subject : VerifyError

pub data Verdict : Type 0 where
  accept : Claims → Verdict
  reject : VerifyError → Verdict

-- `x, err := …; if err != nil { return nil, e }`
abbrev pub need : {A : Type 0} → Option A → VerifyError → (A → Verdict) → Verdict
need none e f = reject e
need (some a) e f = f a

-- `if c { return nil, e }`
abbrev pub stop_if : Bool → VerifyError → Verdict → Verdict
stop_if true e v = reject e
stop_if false e v = v

-- the key of the ring under an id
abbrev pub key_of : KeyRing → String → Option String
key_of [] kid = none
key_of ((k, key) ∷ ring) kid = let rest = key_of ring kid in if str_eq k kid then some key else rest

-- The claim names that an identity assertion must not carry.
abbrev pub forbidden_claims : List String
forbidden_claims =
    "roles" ∷ "role" ∷ "permissions" ∷ "permission" ∷ "organizations" ∷ "orgs" ∷ "tenant_id" ∷ []

abbrev pub has_forbidden : List String → Bool
has_forbidden keys = any (λ f. any (str_eq f) keys) forbidden_claims

abbrev pub max_token_lifetime : ℤ
max_token_lifetime = pos 300

abbrev pub max_clock_skew : ℤ
max_clock_skew = pos 5

-- Verify, steps 2 to 5
unfoldable pub verify_claims : Codec → Verifier → ℤ → Claims → Verdict
unfolding wrap64
verify_claims codec v now claims = stop_if (str_eq (codec.trim claims.subject) "") empty_subject (
    stop_if (not (str_eq claims.issuer v.expected_issuer)) invalid_issuer (
      stop_if (not (str_eq claims.audience v.expected_audience)) invalid_audience (
        stop_if
          (ltb_ℤ (max_token_lifetime +ℤ max_clock_skew)
            (wrap64 (claims.expires_at -ℤ claims.issued_at)))
          excessive_lifetime
          (stop_if (ltb_ℤ (wrap64 (claims.expires_at +ℤ max_clock_skew)) now) expired (
            stop_if (ltb_ℤ now (wrap64 (claims.not_before -ℤ max_clock_skew))) premature
              (accept claims))))))

-- Verify, from the raw check of the claim names on
unfoldable pub verify_payload : Codec → Verifier → ℤ → String → Verdict
unfolding verify_claims
verify_payload codec v now claims_bytes = need (codec.keys_of claims_bytes) invalid_format λ keys.
    stop_if (has_forbidden keys) forbidden_claims_found (
      need (codec.claims_of claims_bytes) invalid_format λ claims. verify_claims codec v now claims)

-- Verify, on the three parts of the token
unfoldable pub verify_parts : Codec → Verifier → ℤ → String → String → String → Verdict
unfolding verify_payload
verify_parts codec v now header_b64 claims_b64 sig_b64 =
    need (codec.decode header_b64) invalid_format λ header_bytes.
      need (codec.header_of header_bytes) invalid_format λ header.
        stop_if (not (str_eq header.algorithm "Ed25519")) invalid_signature (
          need (key_of v.ring header.key_id) unknown_key_id λ pub_key.
            stop_if (str_eq pub_key "") unknown_key_id (
              need (codec.decode sig_b64) invalid_signature λ signature.
                stop_if (not (codec.signed pub_key (codec.join header_b64 claims_b64) signature))
                  invalid_signature
                  (need (codec.decode claims_b64) invalid_format
                    λ claims_bytes. verify_payload codec v now claims_bytes)))

abbrev pub verify_split : Codec → Verifier → ℤ → List String → Verdict
verify_split codec v now (h ∷ c ∷ s ∷ []) = verify_parts codec v now h c s
verify_split codec v now (h ∷ c ∷ s ∷ x ∷ xs) = reject invalid_format
verify_split codec v now (h ∷ c ∷ []) = reject invalid_format
verify_split codec v now (h ∷ []) = reject invalid_format
verify_split codec v now [] = reject invalid_format

-- Verify
unfoldable pub verify : Codec → Verifier → String → ℤ → Verdict
unfolding verify_parts
verify codec v raw_token now = verify_split codec v now (codec.split_dots raw_token)

-- HasActiveSudo of the claims
unfoldable pub claims_have_active_sudo : Claims → ℤ → Bool
claims_have_active_sudo c now =
    if leb_ℤ c.sudo_expires_at (pos 0) && leb_ℤ (pos 0) c.sudo_expires_at
    then false
    else leb_ℤ now c.sudo_expires_at
