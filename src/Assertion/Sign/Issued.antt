-- ===== src/Assertion/Sign/Issued.antt =====
-- What Sign makes, Verify accepts.
use geo_querry.Prelude.{
  ℕ, String, ◌≡◌, ◌≢◌, refl, ◌↔◌, Bool, true, false, Option, none, some, List, [], ◌∷◌, ◌++◌,
  if◌then◌else◌, str_eq-false,
}
use geo_querry.Prelude.Int.{ℤ, is_zero}
use geo_querry.Assertion.{Header, Claims, Codec, Verifier, accept, verify, key_of, has_forbidden}
use geo_querry.Assertion.Accepted.{verify_iff}
use geo_querry.Assertion.Authentic.{IsAuthentic, IsTimely, NoOverflow}
use geo_querry.Assertion.Sign.{Signer, token, sign, completed, token_id_for, header_for, assemble}

-- the name of a field that `omitempty` leaves out
abbrev named_if : {A : Type 0} → String → Option A → List String
named_if name none = []
named_if name (some a) = name ∷ []

abbrev amr_name : List String → List String
amr_name [] = []
amr_name (x ∷ xs) = "amr" ∷ []

-- The keys of the JSON object that encoding/json prints for claims, by their tags.
abbrev pub claim_names : Claims → List String
claim_names c =
    "iss"
      ∷ "aud"
      ∷ "sub"
      ∷ "exp"
      ∷ "nbf"
      ∷ "iat"
      ∷ "jti"
      ∷ "auth_time"
      ∷ amr_name c.auth_method_refs
    ++ (if is_zero c.sudo_expires_at then [] else "sudo_exp" ∷ [])
    ++ named_if "roles" c.roles
    ++ named_if "permissions" c.permissions
    ++ named_if "organizations" c.organizations
    ++ named_if "tenant_id" c.tenant_id

pub record HasNoTenant (c : Claims) : Type 0 where
  pub roles : c.roles ≡ none
  pub permissions : c.permissions ≡ none
  pub organizations : c.organizations ≡ none
  pub tenant_id : c.tenant_id ≡ none

-- JSON and base64 read back what they print, a dot is no base64, and Ed25519 verifies what it
-- signs: at the texts of one token.
pub record IsCarried (codec : Codec) (signer : Signer) (private_key : String) (h : Header)
    (c : Claims) : Type 0 where
  pub header_bytes : String
  pub header_printed : signer.header_text h ≡ some header_bytes
  pub header_read : codec.header_of header_bytes ≡ some h
  pub claims_bytes : String
  pub claims_printed : signer.claims_text c ≡ some claims_bytes
  pub claims_read : codec.claims_of claims_bytes ≡ some c
  pub names_read : codec.keys_of claims_bytes ≡ some (claim_names c)
  pub header_decoded : codec.decode (signer.encode header_bytes) ≡ some header_bytes
  pub claims_decoded : codec.decode (signer.encode claims_bytes) ≡ some claims_bytes
  pub signature : String
  pub signed_so :
      signer.sign_with private_key
        (codec.join (signer.encode header_bytes) (signer.encode claims_bytes))
      ≡ signature
  pub signature_decoded : codec.decode (signer.encode signature) ≡ some signature
  pub signature_holds :
      codec.signed
        (signer.public_of private_key)
        (codec.join (signer.encode header_bytes) (signer.encode claims_bytes))
        signature
      ≡ true
  pub splits :
      codec.split_dots (
        codec.join
          (codec.join (signer.encode header_bytes) (signer.encode claims_bytes))
          (signer.encode signature))
      ≡ signer.encode header_bytes ∷ signer.encode claims_bytes ∷ signer.encode signature ∷ []

has_forbidden-claim_names : (c : Claims) → HasNoTenant c → has_forbidden (claim_names c) ≡ false
has_forbidden-claim_names c n =
    rw (n.roles, n.permissions, n.organizations, n.tenant_id)
      (amr c.auth_method_refs (is_zero c.sudo_expires_at))
  where
    amr :
        (refs : List String) (zero_sudo : Bool)
        → has_forbidden (
            "iss" ∷ "aud" ∷ "sub" ∷ "exp" ∷ "nbf" ∷ "iat" ∷ "jti" ∷ "auth_time" ∷ amr_name refs
            ++ (if zero_sudo then [] else "sudo_exp" ∷ [])
            ++ []
            ++ []
            ++ []
            ++ [])
          ≡ false
    amr [] true = refl
    amr [] false = refl
    amr (x ∷ xs) true = refl
    amr (x ∷ xs) false = refl

module _ (codec : Codec) (signer : Signer) (private_key key_id : String) where
  issue :
      (now : ℤ) (random : Option (List ℕ)) (claims : Claims) (id : String)
      → claims.subject ≢ ""
      → token_id_for signer random claims.token_id ≡ some id
      → (k : IsCarried codec signer private_key (header_for key_id) (completed now id claims))
      → sign codec signer now random claims private_key key_id
        ≡ token (assemble codec signer private_key k.header_bytes k.claims_bytes)
  unfolding sign
  issue now random claims id subject found k =
      rw (str_eq-false claims.subject "" subject, found, k.header_printed, k.claims_printed) refl

  authentic :
      (v : Verifier) (c : Claims)
      → HasNoTenant c
      → key_of v.ring key_id ≡ some (signer.public_of private_key)
      → signer.public_of private_key ≢ ""
      → (k : IsCarried codec signer private_key (header_for key_id) c)
      → IsAuthentic codec v (assemble codec signer private_key k.header_bytes k.claims_bytes) c
  authentic v c clean known given k = record {
    h = signer.encode k.header_bytes;
    c = signer.encode k.claims_bytes;
    s = signer.encode k.signature;
    three_parts = rw (assemble, k.signed_so) k.splits;
    header_bytes = k.header_bytes;
    header_decodes = k.header_decoded;
    header = header_for key_id;
    header_parses = k.header_read;
    algorithm = refl;
    key = signer.public_of private_key;
    key_known = known;
    key_given = given;
    signature = k.signature;
    signature_decodes = k.signature_decoded;
    signature_holds = k.signature_holds;
    payload = k.claims_bytes;
    payload_decodes = k.claims_decoded;
    names = claim_names c;
    names_parse = k.names_read;
    no_forbidden = has_forbidden-claim_names c clean;
    claims_parse = k.claims_read;
  }

  -- Where JSON, base64 and Ed25519 read back what they print at the texts of this token, claims
  -- with a subject and without roles, permissions, organizations or tenant are signed to a token
  -- that a verifier with the public key under the key id accepts as the completed claims exactly
  -- when these are timely, as long as the sums of their times do not overflow.
  pub verify-sign :
      (v : Verifier) (now now' : ℤ) (random : Option (List ℕ)) (claims : Claims) (id : String)
      → claims.subject ≢ ""
      → token_id_for signer random claims.token_id ≡ some id
      → HasNoTenant claims
      → key_of v.ring key_id ≡ some (signer.public_of private_key)
      → signer.public_of private_key ≢ ""
      → IsCarried codec signer private_key (header_for key_id) (completed now id claims)
      → NoOverflow (completed now id claims)
      → (text : String) × (sign codec signer now random claims private_key key_id ≡ token text)
        × ((verify codec v text now' ≡ accept (completed now id claims))
            ↔ IsTimely codec v now' (completed now id claims))
  verify-sign v now now' random claims id subject found clean known given k fits =
      let text = assemble codec signer private_key k.header_bytes k.claims_bytes in
      let c = completed now id claims in
      let kept : HasNoTenant c = record {
        roles = clean.roles;
        permissions = clean.permissions;
        organizations = clean.organizations;
        tenant_id = clean.tenant_id;
      } in
      let (accepted, sound) = verify_iff codec v text now' c fits in
      (
        text,
        issue now random claims id subject found k,
        (λ e. (accepted e).1, λ t. sound (authentic v c kept known given k, t)),
      )
