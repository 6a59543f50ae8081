-- ===== src/Assertion/Tests.antt =====
-- Verify at one token, with a codec that knows its three parts.
use geo_querry.Prelude.{◌≡◌, refl, ◌↔◌, none, some, [], ◌∷◌, str_eq, if◌then◌else◌, arith, ◌&&◌}
use geo_querry.Prelude.Int.{pos, ◌≤ℤ◌, ◌+ℤ◌, ◌-ℤ◌, wrap64}
use geo_querry.Assertion.{Header, Claims, Codec, Verifier, accept, verify}
use geo_querry.Assertion.Accepted.{verify_iff, verify-bounded}
use geo_querry.Assertion.Authentic.{IsAuthentic, IsTimely, NoOverflow}

abbrev header : Header
header = record { algorithm = "Ed25519"; key_id = "k1"; kind = "GEO-ASSERTION" }

abbrev claims : Claims
claims = record {
  issuer = "geoquerry-web-bff";
  audience = "geoquerry-core-backend";
  subject = "u";
  expires_at = pos 1300;
  not_before = pos 995;
  issued_at = pos 1000;
  token_id = "t";
  auth_time = pos 900;
  auth_method_refs = [];
  sudo_expires_at = pos 0;
  roles = none;
  permissions = none;
  organizations = none;
  tenant_id = none;
}

abbrev codec : Codec
codec = record {
  split_dots = λ s. "h" ∷ "c" ∷ "s" ∷ [];
  join = λ a b. "h.c";
  trim = λ s. s;
  decode = λ s. some s;
  header_of = λ s. if str_eq s "h" then some header else none;
  keys_of = λ s. some ("iss" ∷ "sub" ∷ []);
  claims_of = λ s. if str_eq s "c" then some claims else none;
  signed = λ k m s. str_eq k "key" && str_eq m "h.c" && str_eq s "s";
}

abbrev verifier : Verifier
verifier = record {
  ring = ("k1", "key") ∷ [];
  expected_issuer = "geoquerry-web-bff";
  expected_audience = "geoquerry-core-backend";
}

claims-NoOverflow : NoOverflow claims
unfolding ◌+ℤ◌ ◌-ℤ◌
claims-NoOverflow = record {
  lifetime = (omega arith, omega arith);
  expiry = (omega arith, omega arith);
  start = (omega arith, omega arith);
}

verify_iff_example :
    (verify codec verifier "h.c.s" (pos 1100) ≡ accept claims)
    ↔ (IsAuthentic codec verifier "h.c.s" claims × IsTimely codec verifier (pos 1100) claims)
verify_iff_example = verify_iff codec verifier "h.c.s" (pos 1100) claims claims-NoOverflow

accepted : verify codec verifier "h.c.s" (pos 1100) ≡ accept claims
unfolding verify wrap64 ◌+ℤ◌ ◌-ℤ◌
accepted = refl

verify-bounded_example : pos 1100 ≤ℤ pos 1000 +ℤ pos 310
verify-bounded_example =
    verify-bounded codec verifier "h.c.s" (pos 1100) claims claims-NoOverflow accepted
