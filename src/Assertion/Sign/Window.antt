-- ===== src/Assertion/Sign/Window.antt =====
-- How long a token lives that Sign makes of claims without times.
use geo_querry.Prelude.{ℕ, ◌≤◌, ◌^◌, ◌<◌, String, ◌≡◌, ◌≢◌, refl, ◌↔◌, Option, some, List, arith}
use geo_querry.Prelude.Int.{ℤ, pos, ◌≤ℤ◌, ◌+ℤ◌, ◌-ℤ◌, +ℤ_parts, -ℤ_parts}
use geo_querry.Assertion.{
  Claims, Codec, KeyRing, accept, verify, key_of, new_verifier, max_clock_skew, max_token_lifetime,
}
use geo_querry.Assertion.Authentic.{IsTimely, NoOverflow}
use geo_querry.Assertion.Sign.{Signer, token, sign, completed, token_id_for, header_for}
use geo_querry.Assertion.Sign.Issued.{HasNoTenant, IsCarried, verify-sign}

-- Claims of which Sign fills in the issuer, the audience and the three times.
pub record IsPlain (claims : Claims) : Type 0 where
  pub issuer : claims.issuer ≡ ""
  pub audience : claims.audience ≡ ""
  pub issued_at : claims.issued_at ≡ pos 0
  pub not_before : claims.not_before ≡ pos 0
  pub expires_at : claims.expires_at ≡ pos 0

-- The times that Sign fills in at `n`.
record HasTimes (n : ℕ) (c : Claims) : Type 0 where
  issued_at : c.issued_at ≡ pos n
  not_before : c.not_before ≡ pos n -ℤ max_clock_skew
  expires_at : c.expires_at ≡ pos n +ℤ max_token_lifetime

completed-HasTimes :
    (n : ℕ) (id : String) (claims : Claims)
    → IsPlain claims
    → HasTimes n (completed (pos n) id claims)
completed-HasTimes n id claims p = record {
  issued_at = rw p.issued_at refl;
  not_before = rw p.not_before refl;
  expires_at = rw p.expires_at refl;
}

HasTimes-NoOverflow : (n : ℕ) (c : Claims) → 10 ≤ n → n < 2 ^ 62 → HasTimes n c → NoOverflow c
unfolding ◌+ℤ◌ ◌-ℤ◌
HasTimes-NoOverflow n c low high t = record {
  lifetime = rw (t.expires_at, t.issued_at) (ground arith);
  expiry = rw t.expires_at (ground arith);
  start = rw t.not_before (ground arith);
}

-- the two bounds on the moment at which such a token is verified
pub InWindow : ℕ → ℤ → Type 0
InWindow n now = (pos n ≤ℤ now +ℤ pos 10) × (now ≤ℤ pos n +ℤ pos 305)

HasTimes-InWindow :
    (n : ℕ) (now : ℤ) (c : Claims)
    → HasTimes n c
    → ((c.expires_at ≤ℤ c.issued_at +ℤ pos 305)
        × (now ≤ℤ c.expires_at +ℤ pos 5)
        × (c.not_before ≤ℤ now +ℤ pos 5))
      ↔ InWindow n now
unfolding InWindow
HasTimes-InWindow n now c t =
    rw (t.issued_at, t.not_before, t.expires_at)
      (ground (
        arith,
        +ℤ_parts now (pos 10),
        +ℤ_parts now (pos 5),
        +ℤ_parts (pos n) (pos 305),
        +ℤ_parts (pos n) (pos 300),
        +ℤ_parts (pos n +ℤ pos 300) (pos 5),
        -ℤ_parts (pos n) (pos 5),
      ))

completed-IsTimely :
    (codec : Codec) (ring : KeyRing) (n : ℕ) (now : ℤ) (id : String) (claims : Claims)
    → IsPlain claims
    → codec.trim claims.subject ≢ ""
    → IsTimely codec (new_verifier ring "" "") now (completed (pos n) id claims) ↔ InWindow n now
unfolding new_verifier
completed-IsTimely codec ring n now id claims p subject =
    let t = completed-HasTimes n id claims p in
    let (to, from) = HasTimes-InWindow n now (completed (pos n) id claims) t in
    (
      λ h. to (h.lifetime, h.unexpired, h.mature),
      λ h.
          let (a, b, c) = from h in
          record {
            subject = subject;
            issuer = rw p.issuer refl;
            audience = rw p.audience refl;
            lifetime = a;
            unexpired = b;
            mature = c;
          },
    )

-- Where JSON, base64 and Ed25519 read back what they print at the texts of this token, and the
-- claims have a subject that is not blank, no issuer, audience or times and no roles, permissions,
-- organizations or tenant, the token that Sign makes of them at a second n from 10 to 2^62 is
-- accepted by the default verifier with its key exactly from 10 s before n to 305 s after it.
pub verify-sign_window :
    (codec : Codec) (signer : Signer) (private_key key_id : String) (ring : KeyRing) (n : ℕ)
    (now : ℤ) (random : Option (List ℕ)) (claims : Claims) (id : String)
    → 10 ≤ n
    → n < 2 ^ 62
    → IsPlain claims
    → claims.subject ≢ ""
    → codec.trim claims.subject ≢ ""
    → token_id_for signer random claims.token_id ≡ some id
    → HasNoTenant claims
    → key_of ring key_id ≡ some (signer.public_of private_key)
    → signer.public_of private_key ≢ ""
    → IsCarried codec signer private_key (header_for key_id) (completed (pos n) id claims)
    → (text : String) × (sign codec signer (pos n) random claims private_key key_id ≡ token text)
      × ((verify codec (new_verifier ring "" "") text now ≡ accept (completed (pos n) id claims))
          ↔ InWindow n now)
unfolding new_verifier
verify-sign_window codec signer private_key key_id ring n now random claims id low high p subject
      trimmed found clean known given k =
    let fits =
      HasTimes-NoOverflow n (completed (pos n) id claims) low high
        (completed-HasTimes n id claims p) in
    let (text, made, to_from) =
      verify-sign codec signer private_key key_id (new_verifier ring "" "") (pos n) now random
        claims id subject found clean known given k fits in
    let (a, b) = completed-IsTimely codec ring n now id claims p trimmed in
    (text, made, (λ e. a (to_from.0 e), λ h. to_from.1 (b h)))
