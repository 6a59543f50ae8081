-- ===== src/Assertion/Authentic.antt =====
-- What makes a token authentic and its claims timely, and the steps of Verify one at a time.
use geo_querry.Prelude.{
  String, ◌≡◌, ◌≢◌, refl, ◌↔◌, Bool, true, false, Option, none, some, List, [], ◌∷◌, arith,
}
use geo_querry.Prelude.Int.{ℤ, pos, IsInt64, ◌+ℤ◌, ◌-ℤ◌, ◌≤ℤ◌, +ℤ_parts, -ℤ_parts}
use geo_querry.Assertion.{
  Header, Claims, Codec, Verifier, VerifyError, Verdict, accept, need, stop_if, key_of,
  has_forbidden, max_clock_skew,
}

-- What has to be found on the way from a token to its claims.
pub record IsAuthentic (codec : Codec) (v : Verifier) (token : String) (claims : Claims)
    : Type 0 where
  pub h : String
  pub c : String
  pub s : String
  pub three_parts : codec.split_dots token ≡ h ∷ c ∷ s ∷ []
  pub header_bytes : String
  pub header_decodes : codec.decode h ≡ some header_bytes
  pub header : Header
  pub header_parses : codec.header_of header_bytes ≡ some header
  pub algorithm : header.algorithm ≡ "Ed25519"
  pub key : String
  pub key_known : key_of v.ring header.key_id ≡ some key
  pub key_given : key ≢ ""
  pub signature : String
  pub signature_decodes : codec.decode s ≡ some signature
  pub signature_holds : codec.signed key (codec.join h c) signature ≡ true
  pub payload : String
  pub payload_decodes : codec.decode c ≡ some payload
  pub names : List String
  pub names_parse : codec.keys_of payload ≡ some names
  pub no_forbidden : has_forbidden names ≡ false
  pub claims_parse : codec.claims_of payload ≡ some claims

-- The conditions on the claims themselves, without overflow.
pub record IsTimely (codec : Codec) (v : Verifier) (now : ℤ) (claims : Claims) : Type 0 where
  pub subject : codec.trim claims.subject ≢ ""
  pub issuer : claims.issuer ≡ v.expected_issuer
  pub audience : claims.audience ≡ v.expected_audience
  pub lifetime : claims.expires_at ≤ℤ claims.issued_at +ℤ pos 305
  pub unexpired : now ≤ℤ claims.expires_at +ℤ pos 5
  pub mature : claims.not_before ≤ℤ now +ℤ pos 5

-- The sums that Verify makes of the three times stay in an int64.
pub record NoOverflow (claims : Claims) : Type 0 where
  pub lifetime : IsInt64 (claims.expires_at -ℤ claims.issued_at)
  pub expiry : IsInt64 (claims.expires_at +ℤ max_clock_skew)
  pub start : IsInt64 (claims.not_before -ℤ max_clock_skew)

-- taking apart one step of the chain
pub need-accept :
    {A : Type 0} (o : Option A) (e : VerifyError) (f : A → Verdict) (claims : Claims)
    → need o e f ≡ accept claims
    → (a : A) × (o ≡ some a) × (f a ≡ accept claims)
need-accept none e f claims h = absurd (cc)
need-accept (some a) e f claims h = (a, refl, h)

pub stop_if-accept :
    (b : Bool) (e : VerifyError) (v : Verdict) (claims : Claims)
    → stop_if b e v ≡ accept claims
    → (b ≡ false) × (v ≡ accept claims)
stop_if-accept true e v claims h = absurd (cc)
stop_if-accept false e v claims h = (refl, h)

-- the three comparisons of times, without the wrap
pub within_lifetime : (e i : ℤ) → (e -ℤ i ≤ℤ pos 300 +ℤ pos 5) ↔ (e ≤ℤ i +ℤ pos 305)
within_lifetime e i = ground (arith, -ℤ_parts e i, +ℤ_parts (pos 300) (pos 5), +ℤ_parts i (pos 305))

pub not_before_skew : (n now : ℤ) → (n -ℤ pos 5 ≤ℤ now) ↔ (n ≤ℤ now +ℤ pos 5)
not_before_skew n now = ground (arith, -ℤ_parts n (pos 5), +ℤ_parts now (pos 5))

pub accept-injective : (a b : Claims) → accept a ≡ accept b → a ≡ b
accept-injective a b e = cc
