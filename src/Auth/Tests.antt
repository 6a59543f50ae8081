-- ===== src/Auth/Tests.antt =====
-- The theorems on roles, sudo sessions and gates at concrete requests.
use geo_querry.Prelude.{
  String, ◌≡◌, ◌≢◌, refl, ◌↔◌, true, false, Option, none, some, [], ◌∷◌, ◌≤◌, eq_iff, inl,
}
use geo_querry.Prelude.Int.{pos}
use geo_querry.Assertion.{Claims, claims_have_active_sudo, Codec}
use geo_querry.Auth.Identity.{Identity, has_active_sudo}
use geo_querry.Auth.Roles.{
  role_owner, role_admin, role_geologist, role_viewer, role_rank, can_manage_role,
}
use geo_querry.Auth.Roles.Escalation.{can_manage_role_iff, Managed, start, step, Managed-owner}
use geo_querry.Auth.Interceptor.{
  Headers, CombinedInterceptor, ran, service_identity, wrap_combined, identity_of, at_second,
}
use geo_querry.Auth.Interceptor.Gates.{
  by_key, Admission-wrap_combined, Admission, wrap_combined-Admission, has_active_sudo-identity_of,
}

can_manage_role_iff_example : (can_manage_role role_admin role_viewer role_geologist ≡ none) ↔ (
    (role_rank role_viewer ≤ role_rank role_admin)
    × (role_rank role_geologist ≤ role_rank role_admin))
can_manage_role_iff_example = can_manage_role_iff role_admin role_viewer role_geologist

admin_is_not_owner : role_admin ≢ role_owner
admin_is_not_owner e = absurd (let same = (eq_iff role_admin role_owner).1 e in cc)

promoted : Managed role_viewer role_geologist
unfolding can_manage_role role_rank
promoted = step role_admin role_geologist start refl admin_is_not_owner

Managed-owner_example : (role_viewer ≡ role_owner) ↔ (role_geologist ≡ role_owner)
Managed-owner_example = Managed-owner promoted

abbrev claims : Claims
claims = record {
  issuer = "geoquerry-web-bff";
  audience = "geoquerry-core-backend";
  subject = "u";
  expires_at = pos 1300;
  not_before = pos 995;
  issued_at = pos 1000;
  token_id = "t";
  auth_time = pos 900;
  auth_method_refs = [];
  sudo_expires_at = pos 1200;
  roles = none;
  permissions = none;
  organizations = none;
  tenant_id = none;
}

in_session : has_active_sudo (some (identity_of claims)) (at_second (pos 1100)) ≡ true
unfolding has_active_sudo
in_session = refl

has_active_sudo-identity_of_example : claims_have_active_sudo claims (pos 1100) ≡ true
has_active_sudo-identity_of_example = has_active_sudo-identity_of claims (pos 1100) in_session

abbrev deaf_codec : Codec
deaf_codec = record {
  split_dots = λ s. [];
  join = λ a b. "";
  trim = λ s. s;
  decode = λ s. none;
  header_of = λ s. none;
  keys_of = λ s. none;
  claims_of = λ s. none;
  signed = λ k m s. false;
}

abbrev digest : String → String
digest s = s

abbrev gate : CombinedInterceptor
gate = record { verifier = none; hashed_keys = "secret" ∷ [] }

abbrev with_key : Headers
with_key = record { bearer = none; api_key = "secret" }

let_in :
    wrap_combined deaf_codec digest (pos 0) (pos 0) gate with_key (λ ident. ident)
    ≡ ran (some (service_identity (pos 0)))
unfolding wrap_combined
let_in = refl

wrap_combined-Admission_example :
    (ident : Option Identity) × Admission deaf_codec digest (pos 0) (pos 0) gate with_key ident
    × (some (service_identity (pos 0)) ≡ ident)
wrap_combined-Admission_example =
    wrap_combined-Admission deaf_codec digest (pos 0) (pos 0) gate with_key (λ ident. ident)
      (some (service_identity (pos 0))) let_in

by_secret :
    Admission deaf_codec digest (pos 0) (pos 0) gate with_key (some (service_identity (pos 0)))
by_secret = by_key (inl refl) (λ h. absurd (let same = (eq_iff "secret" "").1 h in cc)) refl

Admission-wrap_combined_example :
    wrap_combined deaf_codec digest (pos 0) (pos 0) gate with_key (λ ident. ident)
    ≡ ran (some (service_identity (pos 0)))
Admission-wrap_combined_example =
    Admission-wrap_combined deaf_codec digest (pos 0) (pos 0) gate with_key (λ ident. ident)
      (some (service_identity (pos 0))) by_secret
