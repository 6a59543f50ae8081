-- ===== src/Assertion/Sign.antt =====
-- Sign of backend/pkg/assertion/assertion.go. JSON, base64, Ed25519 and the text of a UUID are the
-- fields of `Signer`; crypto/rand is an argument, `none` where it fails. The clock is in seconds.
pub mod Issued
pub mod Window
mod Tests
use geo_querry.Prelude.{
  ℕ, zero, suc, ◌+◌, String, Bool, true, false, Option, none, some, List, [], ◌∷◌, ◌++◌, str_eq,
  if◌then◌else◌, ◌==◌,
}
use Prim.Native.Nat.{◌%◌}
use geo_querry.Prelude.Int.{ℤ, pos, negsuc, ◌+ℤ◌, ◌-ℤ◌, is_zero}
use geo_querry.Assertion.{
  Header, Claims, Codec, default_issuer, default_audience, max_token_lifetime, max_clock_skew,
}

pub record Signer : Type 0 where
  pub header_text : Header → Option String
  pub claims_text : Claims → Option String
  pub encode : String → String
  pub sign_with : String → String → String
  pub public_of : String → String
  pub uuid_text : List ℕ → String

pub data SignError : Type 0 where
  subject_missing : SignError
  no_token_id : SignError
  header_unprintable : SignError
  claims_unprintable : SignError

pub data Signing : Type 0 where
  token : String → Signing
  refused : SignError → Signing

-- `b[i] = f(b[i])`
abbrev pub set_byte : ℕ → (ℕ → ℕ) → List ℕ → List ℕ
set_byte i f [] = []
set_byte zero f (b ∷ bs) = f b ∷ bs
set_byte (suc i) f (b ∷ bs) = b ∷ set_byte i f bs

-- generateRandomID, on what rand.Read gives: `(b & 0x0f) | 0x40` and `(b & 0x3f) | 0x80`
abbrev pub generate_random_id : Signer → Option (List ℕ) → Option String
generate_random_id signer none = none
generate_random_id signer (some bytes) =
    some (signer.uuid_text (set_byte 8 (λ b. b % 64 + 128) (set_byte 6 (λ b. b % 16 + 64) bytes)))

abbrev pub or_else_ℤ : ℤ → ℤ → ℤ
or_else_ℤ a default = if is_zero a then default else a

abbrev pub or_else_text : String → String → String
or_else_text s default = if str_eq s "" then default else s

-- The claims with their empty fields filled, under the token id `id`.
abbrev pub completed : ℤ → String → Claims → Claims
completed now id claims = record claims {
  issuer = or_else_text claims.issuer default_issuer;
  audience = or_else_text claims.audience default_audience;
  issued_at = or_else_ℤ claims.issued_at now;
  not_before = or_else_ℤ claims.not_before (now -ℤ max_clock_skew);
  expires_at = or_else_ℤ claims.expires_at (now +ℤ max_token_lifetime);
  token_id = id;
}

abbrev pub token_id_for : Signer → Option (List ℕ) → String → Option String
token_id_for signer random id = if str_eq id "" then generate_random_id signer random else some id

abbrev pub header_for : String → Header
header_for key_id = record { algorithm = "Ed25519"; key_id = key_id; kind = "GEO-ASSERTION" }

-- The token of a header and claims in JSON.
abbrev pub assemble : Codec → Signer → String → String → String → String
assemble codec signer private_key header_bytes claims_bytes =
    let signing_input = codec.join (signer.encode header_bytes) (signer.encode claims_bytes) in
    codec.join signing_input (signer.encode (signer.sign_with private_key signing_input))

abbrev pub print_token : Codec → Signer → String → Option String → Option String → Signing
print_token codec signer private_key none claims_bytes = refused header_unprintable
print_token codec signer private_key (some h) none = refused claims_unprintable
print_token codec signer private_key (some h) (some c) =
    token (assemble codec signer private_key h c)

-- Sign, from the header on
abbrev pub sign_completed : Codec → Signer → ℤ → Claims → String → String → Option String → Signing
sign_completed codec signer now claims private_key key_id none = refused no_token_id
sign_completed codec signer now claims private_key key_id (some id) =
    print_token codec signer private_key (signer.header_text (header_for key_id))
      (signer.claims_text (completed now id claims))

-- Sign
unfoldable pub sign : Codec → Signer → ℤ → Option (List ℕ) → Claims → String → String → Signing
sign codec signer now random claims private_key key_id =
    if str_eq claims.subject ""
    then refused subject_missing
    else sign_completed codec signer now claims private_key key_id
        (token_id_for signer random claims.token_id)
