-- ===== src/Assertion/Sign/Tests.antt =====
-- Sign at one subject at second 1000, with base64 as the identity and JSON as two fixed texts.
use Prim.Native.String.{◌++◌ as str_append}
use geo_querry.Prelude.{
  ℕ, String, ◌≡◌, ◌≢◌, refl, ◌↔◌, Option, none, some, List, [], ◌∷◌, str_eq, if◌then◌else◌, arith,
  eq_iff, ◌&&◌, ◌==◌,
}
use geo_querry.Prelude.Int.{pos, ◌+ℤ◌, ◌-ℤ◌}
use geo_querry.Assertion.{Claims, Codec, accept, verify, new_verifier}
use geo_querry.Assertion.Authentic.{IsTimely, NoOverflow}
use geo_querry.Assertion.Sign.{Signer, token, sign, completed, header_for}
use geo_querry.Assertion.Sign.Issued.{HasNoTenant, IsCarried, claim_names, verify-sign}
use geo_querry.Assertion.Sign.Window.{InWindow, verify-sign_window}

abbrev claims : Claims
claims = record {
  issuer = "";
  audience = "";
  subject = "u";
  expires_at = pos 0;
  not_before = pos 0;
  issued_at = pos 0;
  token_id = "";
  auth_time = pos 900;
  auth_method_refs = "pwd" ∷ [];
  sudo_expires_at = pos 0;
  roles = none;
  permissions = none;
  organizations = none;
  tenant_id = none;
}

abbrev random : Option (List ℕ)
random = some (255 ∷ 1 ∷ 2 ∷ 3 ∷ 4 ∷ 5 ∷ 255 ∷ 7 ∷ 255 ∷ 9 ∷ 10 ∷ 11 ∷ 12 ∷ 13 ∷ 14 ∷ 15 ∷ [])

-- the version and the variant stand where a UUID of version 4 has them
abbrev is_v4 : List ℕ → String
is_v4 (_ ∷ _ ∷ _ ∷ _ ∷ _ ∷ _ ∷ version ∷ _ ∷ variant ∷ bs) =
    if version == 79 && variant == 191 then "v4" else "other"
is_v4 bs = "other"

abbrev full : Claims
full = completed (pos 1000) "v4" claims

abbrev signer : Signer
signer = record {
  header_text = λ h. some "h";
  claims_text = λ c. some "c";
  encode = λ s. s;
  sign_with = λ k m. str_append k m;
  public_of = λ k. k;
  uuid_text = is_v4;
}

abbrev codec : Codec
codec = record {
  split_dots = λ s. if str_eq s "h.c.keyh.c" then "h" ∷ "c" ∷ "keyh.c" ∷ [] else s ∷ [];
  join = λ a b. str_append (str_append a ".") b;
  trim = λ s. s;
  decode = λ s. some s;
  header_of = λ s. if str_eq s "h" then some (header_for "k1") else none;
  keys_of = λ s. if str_eq s "c" then some (claim_names full) else none;
  claims_of = λ s. if str_eq s "c" then some full else none;
  signed = λ k m s. str_eq s (str_append k m);
}

carried : IsCarried codec signer "key" (header_for "k1") full
carried = record {
  header_bytes = "h";
  header_printed = refl;
  header_read = refl;
  claims_bytes = "c";
  claims_printed = refl;
  claims_read = refl;
  names_read = refl;
  header_decoded = refl;
  claims_decoded = refl;
  signature = "keyh.c";
  signed_so = refl;
  signature_decoded = refl;
  signature_holds = refl;
  splits = refl;
}

subject_given : claims.subject ≢ ""
subject_given e = absurd (let same = (eq_iff "u" "").1 e in cc)

key_given : signer.public_of "key" ≢ ""
key_given e = absurd (let same = (eq_iff "key" "").1 e in cc)

untenanted : HasNoTenant claims
untenanted = record { roles = refl; permissions = refl; organizations = refl; tenant_id = refl }

full-NoOverflow : NoOverflow full
unfolding ◌+ℤ◌ ◌-ℤ◌
full-NoOverflow = record {
  lifetime = (omega arith, omega arith);
  expiry = (omega arith, omega arith);
  start = (omega arith, omega arith);
}

verify-sign_example :
    (text : String) × (sign codec signer (pos 1000) random claims "key" "k1" ≡ token text)
    × ((verify codec (new_verifier (("k1", "key") ∷ []) "" "") text (pos 1100) ≡ accept full)
        ↔ IsTimely codec (new_verifier (("k1", "key") ∷ []) "" "") (pos 1100) full)
unfolding new_verifier
verify-sign_example =
    verify-sign codec signer "key" "k1" (new_verifier (("k1", "key") ∷ []) "" "") (pos 1000)
      (pos 1100) random claims "v4" subject_given refl untenanted refl key_given carried
      full-NoOverflow

verify-sign_window_example :
    (text : String) × (sign codec signer (pos 1000) random claims "key" "k1" ≡ token text)
    × ((verify codec (new_verifier (("k1", "key") ∷ []) "" "") text (pos 1305) ≡ accept full)
        ↔ InWindow 1000 (pos 1305))
verify-sign_window_example =
    verify-sign_window codec signer "key" "k1" (("k1", "key") ∷ []) 1000 (pos 1305) random claims
      "v4" (omega arith) (omega arith)
      (record {
        issuer = refl;
        audience = refl;
        issued_at = refl;
        not_before = refl;
        expires_at = refl;
      })
      subject_given subject_given refl untenanted refl key_given carried
