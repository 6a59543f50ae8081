-- ===== src/Assertion/Accepted.antt =====
-- Which tokens Verify accepts, and for how long.
use geo_querry.Prelude.{
  String, ◌≡◌, refl, ◌↔◌, Bool, true, false, not, some, List, [], ◌∷◌, str_eq, arith, eq_iff,
  str_eq-false,
}
use geo_querry.Prelude.Int.{
  ℤ, pos, ◌+ℤ◌, ◌-ℤ◌, ◌≤ℤ◌, wrap64, wrap64_self, ltb_ℤ, ltb_ℤ-false, +ℤ_parts,
}
use geo_querry.Assertion.{
  Claims, Codec, Verifier, VerifyError, accept, stop_if, key_of, has_forbidden, verify_claims,
  verify_payload, verify_parts, verify_split, verify, max_token_lifetime, max_clock_skew,
}
use geo_querry.Assertion.Authentic.{
  IsAuthentic, IsTimely, NoOverflow, need-accept, stop_if-accept, within_lifetime, not_before_skew,
  accept-injective,
}

module _ (codec : Codec) (v : Verifier) (token : String) (now : ℤ) where
  -- every test of the claims passed, with these values of the three sums
  Tests : Claims → ℤ → ℤ → ℤ → Type 0
  Tests claims lifetime expiry start =
      (str_eq (codec.trim claims.subject) "" ≡ false)
      × (str_eq claims.issuer v.expected_issuer ≡ true)
      × (str_eq claims.audience v.expected_audience ≡ true)
      × (ltb_ℤ (max_token_lifetime +ℤ max_clock_skew) lifetime ≡ false)
      × (ltb_ℤ expiry now ≡ false)
      × (ltb_ℤ now start ≡ false)

  Passes : Claims → Type 0
  unfolding Tests
  Passes claims =
      Tests claims (wrap64 (claims.expires_at -ℤ claims.issued_at))
        (wrap64 (claims.expires_at +ℤ max_clock_skew))
        (wrap64 (claims.not_before -ℤ max_clock_skew))

  stop_all :
      (b1 b2 b3 b4 b5 b6 : Bool) (e1 e2 e3 e4 e5 e6 : VerifyError) (claims claims' : Claims)
      → stop_if b1 e1 (
          stop_if
            (not b2)
            e2
            (stop_if (not b3) e3 (stop_if b4 e4 (stop_if b5 e5 (stop_if b6 e6 (accept claims))))))
        ≡ accept claims'
      → ((b1 ≡ false) × (b2 ≡ true) × (b3 ≡ true) × (b4 ≡ false) × (b5 ≡ false) × (b6 ≡ false))
        × (accept claims ≡ accept claims')
  stop_all true b2 b3 b4 b5 b6 e1 e2 e3 e4 e5 e6 claims claims' h = absurd (cc)
  stop_all false false b3 b4 b5 b6 e1 e2 e3 e4 e5 e6 claims claims' h = absurd (cc)
  stop_all false true false b4 b5 b6 e1 e2 e3 e4 e5 e6 claims claims' h = absurd (cc)
  stop_all false true true true b5 b6 e1 e2 e3 e4 e5 e6 claims claims' h = absurd (cc)
  stop_all false true true false true b6 e1 e2 e3 e4 e5 e6 claims claims' h = absurd (cc)
  stop_all false true true false false true e1 e2 e3 e4 e5 e6 claims claims' h = absurd (cc)
  stop_all false true true false false false e1 e2 e3 e4 e5 e6 claims claims' h =
      ((refl, refl, refl, refl, refl, refl), h)

  verify_claims-Passes :
      (claims claims' : Claims)
      → verify_claims codec v now claims ≡ accept claims'
      → Passes claims × (claims ≡ claims')
  unfolding verify_claims Passes
  verify_claims-Passes claims claims' e =
      let (tests, same) = stop_all _ _ _ _ _ _ _ _ _ _ _ _ claims claims' e in
      (tests, accept-injective claims claims' same)

  Passes-verify_claims :
      (claims : Claims) → Passes claims → verify_claims codec v now claims ≡ accept claims
  unfolding verify_claims Passes
  Passes-verify_claims claims (e1, e2, e3, e4, e5, e6) = rw (e1, e2, e3, e4, e5, e6) refl

  ExactTests : Claims → Type 0
  unfolding Tests
  ExactTests claims =
      Tests claims (claims.expires_at -ℤ claims.issued_at) (claims.expires_at +ℤ max_clock_skew)
        (claims.not_before -ℤ max_clock_skew)

  ExactTests-IsTimely : (claims : Claims) → ExactTests claims → IsTimely codec v now claims
  unfolding ExactTests
  ExactTests-IsTimely claims (e1, e2, e3, e4, e5, e6) = record {
    subject = λ h. ground (arith, eq_iff (codec.trim claims.subject) "");
    issuer = (eq_iff claims.issuer v.expected_issuer).0 e2;
    audience = (eq_iff claims.audience v.expected_audience).0 e3;
    lifetime = (within_lifetime claims.expires_at claims.issued_at).0 (
        (ltb_ℤ-false (max_token_lifetime +ℤ max_clock_skew)
            (claims.expires_at -ℤ claims.issued_at)).0
          e4);
    unexpired = (ltb_ℤ-false (claims.expires_at +ℤ max_clock_skew) now).0 e5;
    mature =
        (not_before_skew claims.not_before now).0
          ((ltb_ℤ-false now (claims.not_before -ℤ max_clock_skew)).0 e6);
  }

  IsTimely-ExactTests : (claims : Claims) → IsTimely codec v now claims → ExactTests claims
  unfolding ExactTests
  IsTimely-ExactTests claims t = (
    str_eq-false (codec.trim claims.subject) "" t.subject,
    (eq_iff claims.issuer v.expected_issuer).1 t.issuer,
    (eq_iff claims.audience v.expected_audience).1 t.audience,
    (ltb_ℤ-false (max_token_lifetime +ℤ max_clock_skew) (claims.expires_at -ℤ claims.issued_at)).1
        ((within_lifetime claims.expires_at claims.issued_at).1 t.lifetime),
    (ltb_ℤ-false (claims.expires_at +ℤ max_clock_skew) now).1 t.unexpired,
    (ltb_ℤ-false now (claims.not_before -ℤ max_clock_skew)).1
        ((not_before_skew claims.not_before now).1 t.mature),
  )

  Passes-IsTimely :
      (claims : Claims) → NoOverflow claims → Passes claims ↔ IsTimely codec v now claims
  unfolding Passes ExactTests
  Passes-IsTimely claims fits =
      rw (wrap64_self _ fits.lifetime, wrap64_self _ fits.expiry, wrap64_self _ fits.start)
        (ExactTests-IsTimely claims, IsTimely-ExactTests claims)

  verify_payload-accept :
      (payload : String) (claims : Claims)
      → (verify_payload codec v now payload ≡ accept claims)
      → (names : List String) × (codec.keys_of payload ≡ some names)
        × (has_forbidden names ≡ false)
        × (codec.claims_of payload ≡ some claims)
        × Passes claims
  unfolding verify_payload
  verify_payload-accept payload claims e =
      let (names, e1, h1) = need-accept (codec.keys_of payload) _ _ claims e in
      let (e2, h2) = stop_if-accept (has_forbidden names) _ _ claims h1 in
      let (found, e3, h3) = need-accept (codec.claims_of payload) _ _ claims h2 in
      let (tests, same) = verify_claims-Passes found claims h3 in
      (names, e1, e2, rw (← same) e3, rw (← same) tests)

  verify_parts-accept :
      (h c s : String) (claims : Claims)
      → codec.split_dots token ≡ h ∷ c ∷ s ∷ []
      → verify_parts codec v now h c s ≡ accept claims
      → IsAuthentic codec v token claims × Passes claims
  unfolding verify_parts
  verify_parts-accept h c s claims three e =
      let (header_bytes, e1, h1) = need-accept (codec.decode h) _ _ claims e in
      let (header, e2, h2) = need-accept (codec.header_of header_bytes) _ _ claims h1 in
      let (e3, h3) = stop_if-accept (not (str_eq header.algorithm "Ed25519")) _ _ claims h2 in
      let (key, e4, h4) = need-accept (key_of v.ring header.key_id) _ _ claims h3 in
      let (e5, h5) = stop_if-accept (str_eq key "") _ _ claims h4 in
      let (signature, e6, h6) = need-accept (codec.decode s) _ _ claims h5 in
      let (e7, h7) =
        stop_if-accept (not (codec.signed key (codec.join h c) signature)) _ _ claims h6 in
      let (payload, e8, h8) = need-accept (codec.decode c) _ _ claims h7 in
      let (names, e9, e10, e11, tests) = verify_payload-accept payload claims h8 in
      (
        record {
          h = h;
          c = c;
          s = s;
          three_parts = three;
          header_bytes = header_bytes;
          header_decodes = e1;
          header = header;
          header_parses = e2;
          algorithm = (eq_iff header.algorithm "Ed25519").0 (ground arith);
          key = key;
          key_known = e4;
          key_given = λ k. ground (arith, eq_iff key "");
          signature = signature;
          signature_decodes = e6;
          signature_holds = ground arith;
          payload = payload;
          payload_decodes = e8;
          names = names;
          names_parse = e9;
          no_forbidden = e10;
          claims_parse = e11;
        },
        tests,
      )

  verify-accept :
      (claims : Claims)
      → verify codec v token now ≡ accept claims
      → IsAuthentic codec v token claims × Passes claims
  unfolding verify
  verify-accept claims e = split (codec.split_dots token) refl e
    where
      split :
          (parts : List String)
          → codec.split_dots token ≡ parts
          → verify_split codec v now parts ≡ accept claims
          → IsAuthentic codec v token claims × Passes claims
      split [] three h' = absurd (cc)
      split (h ∷ []) three h' = absurd (cc)
      split (h ∷ c ∷ []) three h' = absurd (cc)
      split (h ∷ c ∷ s ∷ []) three h' = verify_parts-accept h c s claims three h'
      split (h ∷ c ∷ s ∷ x ∷ xs) three h' = absurd (cc)

  accept-verify :
      (claims : Claims)
      → IsAuthentic codec v token claims
      → Passes claims
      → verify codec v token now ≡ accept claims
  unfolding verify verify_parts verify_payload
  accept-verify claims a tests =
      rw
        (
          a.three_parts,
          a.header_decodes,
          a.header_parses,
          (eq_iff _ _).1 a.algorithm,
          a.key_known,
          str_eq-false _ _ a.key_given,
          a.signature_decodes,
          a.signature_holds,
          a.payload_decodes,
          a.names_parse,
          a.no_forbidden,
          a.claims_parse,
        )
        (Passes-verify_claims claims tests)

  -- Verify accepts a token exactly when it is authentic (three parts; an Ed25519 signature over the
  -- first two by the key that the ring has under its key id; a payload without role or tenant
  -- claims) and its claims are timely (a subject, the verifier's issuer and audience, exp at most
  -- 305 s after iat, now at most 5 s after exp and at most 5 s before nbf), as long as the sums of
  -- the three times do not overflow an int64.
  pub verify_iff :
      (claims : Claims)
      → NoOverflow claims
      → (verify codec v token now ≡ accept claims)
        ↔ (IsAuthentic codec v token claims × IsTimely codec v now claims)
  verify_iff claims fits = (
    λ e. let (a, tests) = verify-accept claims e in (a, (Passes-IsTimely claims fits).0 tests),
    λ h. accept-verify claims h.0 ((Passes-IsTimely claims fits).1 h.1),
  )

  -- A token that Verify accepts, without overflow, is accepted no later than 310 s after its iat.
  pub verify-bounded :
      (claims : Claims)
      → NoOverflow claims
      → verify codec v token now ≡ accept claims
      → now ≤ℤ claims.issued_at +ℤ pos 310
  verify-bounded claims fits e =
      let t = ((verify_iff claims fits).0 e).1 in
      let lifetime = t.lifetime in
      let unexpired = t.unexpired in
      ground (
        arith,
        +ℤ_parts claims.issued_at (pos 310),
        +ℤ_parts claims.issued_at (pos 305),
        +ℤ_parts claims.expires_at (pos 5),
      )
