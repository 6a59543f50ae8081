-- ===== src/Auth/Interceptor/Gates.antt =====
-- Whom the combined gate lets through.
use geo_querry.Prelude.{
  String, ◌≡◌, ◌≢◌, refl, ◌⊎◌, inl, inr, Bool, true, false, not, ◌&&◌, Option, none, some, List, [],
  ◌∷◌, str_eq, arith, eq_iff, str_eq-false, Bool-cases, if◌then◌else◌, subst,
}
use geo_querry.Prelude.Int.{ℤ, pos, ltb_ℤ}
use geo_querry.Assertion.{
  Claims, Codec, Verifier, Verdict, accept, reject, verify, claims_have_active_sudo,
}
use geo_querry.Auth.Identity.{Identity, has_active_sudo}
use geo_querry.Auth.Interceptor.{
  Headers, Guarded, ran, refused, CombinedInterceptor, matches, is_empty, is_some, identity_of,
  service_identity, authenticate_key, authenticate, of_verdict, by_token, pass, wrap_combined,
  unauthorized, at_second,
}

-- The ways through the gate, each with what the request shows and what it is let in as.
pub data Admission (codec : Codec) (sha : String → String) (now now_ns : ℤ)
    (ci : CombinedInterceptor) (header : Headers) : Option Identity → Type 0 where
  by_assertion :
      (v : Verifier) (token : String) (claims : Claims)
      → ci.verifier ≡ some v
      → header.bearer ≡ some token
      → verify codec v token now ≡ accept claims
      → Admission codec sha now now_ns ci header (some (identity_of claims))
  by_key :
      (ci.verifier ≡ none) ⊎ (header.bearer ≡ none)
      → header.api_key ≢ ""
      → matches sha ci.hashed_keys header.api_key ≡ true
      → Admission codec sha now now_ns ci header (some (service_identity now_ns))
  by_open_gate :
      ci.verifier ≡ none → ci.hashed_keys ≡ [] → Admission codec sha now now_ns ci header none

ran-injective : (a b : Option Identity) → ran a ≡ ran b → a ≡ b
ran-injective a b e = cc

-- the four tests of the key half of the gate, and what lets a request through
key_gate :
    (blank empty hit verified : Bool) (service ident : Option Identity)
    → (if not blank && not empty
        then if hit then ran service else refused unauthorized
        else if not verified && empty
        then ran none
        else refused unauthorized)
      ≡ ran ident
    → ((blank ≡ false) × (hit ≡ true) × (service ≡ ident))
      ⊎ ((verified ≡ false) × (empty ≡ true) × (none ≡ ident))
key_gate false false true verified service ident e = inl (refl, refl, ran-injective service ident e)
key_gate false false false verified service ident e = absurd (cc)
key_gate true false hit false service ident e = absurd (cc)
key_gate true false hit true service ident e = absurd (cc)
key_gate true true hit false service ident e = inr (refl, refl, ran-injective none ident e)
key_gate true true hit true service ident e = absurd (cc)
key_gate false true hit false service ident e = inr (refl, refl, ran-injective none ident e)
key_gate false true hit true service ident e = absurd (cc)

is_empty-true : (xs : List String) → is_empty xs ≡ true → xs ≡ []
is_empty-true [] e = refl
is_empty-true (x ∷ xs) e = absurd (cc)

is_some-false : {A : Type 0} (o : Option A) → is_some o ≡ false → o ≡ none
is_some-false none e = refl
is_some-false (some a) e = absurd (cc)

module _ (codec : Codec) (sha : String → String) (now now_ns : ℤ) (ci : CombinedInterceptor)
    (header : Headers) where
  abbrev Admitted : Option Identity → Type 0
  Admitted = Admission codec sha now now_ns ci header

  authenticate_key-Admission :
      (ident : Option Identity)
      → (ci.verifier ≡ none) ⊎ (header.bearer ≡ none)
      → authenticate_key sha now_ns ci header ≡ ran ident
      → Admitted ident
  unfolding authenticate_key
  authenticate_key-Admission ident how e =
      elim (key_gate (str_eq header.api_key "") (is_empty ci.hashed_keys)
        (matches sha ci.hashed_keys header.api_key) (is_some ci.verifier)
        (some (service_identity now_ns)) ident e) [
          | inl (given, hit, same) ↦
              subst Admitted same (by_key how (λ h. ground (arith, eq_iff header.api_key "")) hit)
          | inr (unverified, empty, same) ↦ subst Admitted same (
              by_open_gate (is_some-false ci.verifier unverified)
                (is_empty-true ci.hashed_keys empty))
        ]

  of_verdict-ran :
      (v : Verdict) (ident : Option Identity)
      → of_verdict v ≡ ran ident
      → (claims : Claims) × (v ≡ accept claims) × (some (identity_of claims) ≡ ident)
  of_verdict-ran (accept claims) ident e = (claims, refl, ran-injective _ ident e)
  of_verdict-ran (reject why) ident e = absurd (cc)

  by_token-Admission :
      (token : Option String) (verifier : Option Verifier) (ident : Option Identity)
      → header.bearer ≡ token
      → ci.verifier ≡ verifier
      → by_token codec sha now now_ns ci header token verifier ≡ ran ident
      → Admitted ident
  unfolding by_token
  by_token-Admission none verifier ident t v e = authenticate_key-Admission ident (inr t) e
  by_token-Admission (some token) none ident t v e = authenticate_key-Admission ident (inl v) e
  by_token-Admission (some token) (some w) ident t v e =
      let (claims, accepted, same) = of_verdict-ran (verify codec w token now) ident e in
      subst Admitted same (by_assertion w token claims v t accepted)

  pass-ran :
      {A : Type 0} (g : Guarded (Option Identity)) (next : Option Identity → A) (a : A)
      → pass g next ≡ ran a
      → (ident : Option Identity) × (g ≡ ran ident) × (a ≡ next ident)
  pass-ran (ran ident) next a e = (ident, refl, cc)
  pass-ran (refused why) next a e = absurd (cc)

  -- The combined gate runs a handler only for a request that shows a token which Verify accepts, or,
  -- where no token is looked at, a configured API key, or when neither a verifier nor a key is
  -- configured; the handler then gets the identity that was shown. A refused token is never made
  -- good by a key.
  pub wrap_combined-Admission :
      {A : Type 0} (next : Option Identity → A) (a : A)
      → wrap_combined codec sha now now_ns ci header next ≡ ran a
      → (ident : Option Identity) × Admission codec sha now now_ns ci header ident
        × (a ≡ next ident)
  unfolding wrap_combined authenticate
  wrap_combined-Admission next a e =
      let (ident, passed, same) = pass-ran (authenticate codec sha now now_ns ci header) next a e in
      (ident, by_token-Admission header.bearer ci.verifier ident refl refl passed, same)

-- a key that matches is one of at least one
matches-is_empty :
    (sha : String → String) (keys : List String) (k : String)
    → matches sha keys k ≡ true
    → is_empty keys ≡ false
matches-is_empty sha [] k h = absurd (cc)
matches-is_empty sha (x ∷ keys) k h = refl

module _ (codec : Codec) (sha : String → String) (now now_ns : ℤ) (ci : CombinedInterceptor)
    (header : Headers) where
  by_token-without :
      (token : Option String) (verifier : Option Verifier)
      → (verifier ≡ none) ⊎ (token ≡ none)
      → by_token codec sha now now_ns ci header token verifier
        ≡ authenticate_key sha now_ns ci header
  unfolding by_token
  by_token-without none verifier how = refl
  by_token-without (some token) none how = refl
  by_token-without (some token) (some v) (inl e) = absurd (cc)
  by_token-without (some token) (some v) (inr e) = absurd (cc)

  -- Every way through the combined gate is open: a request that shows what it asks for runs its
  -- handler with that identity.
  pub Admission-wrap_combined :
      {A : Type 0} (next : Option Identity → A) (ident : Option Identity)
      → Admission codec sha now now_ns ci header ident
      → wrap_combined codec sha now now_ns ci header next ≡ ran (next ident)
  unfolding wrap_combined authenticate authenticate_key by_token
  Admission-wrap_combined next ident (by_assertion v token claims ev et accepted) =
      rw (et, ev, accepted) refl
  Admission-wrap_combined next ident (by_key how given hit) =
      rw
        (
          by_token-without header.bearer ci.verifier how,
          str_eq-false header.api_key "" given,
          matches-is_empty sha ci.hashed_keys header.api_key hit,
          hit,
        )
        refl
  Admission-wrap_combined next ident (by_open_gate ev ek) =
      elim (Bool-cases (str_eq header.api_key "")) [
        | inl blank ↦ rw (by_token-without header.bearer ci.verifier (inl ev), ev, ek, blank) refl
        | inr given ↦ rw (by_token-without header.bearer ci.verifier (inl ev), ev, ek, given) refl
      ]

-- the sudo session of an identity made from claims, at a whole second
at_second_mono : (a b : ℤ) → ltb_ℤ (at_second a) (at_second b) ≡ true → ltb_ℤ a b ≡ true
at_second_mono a b h = ground arith

-- The identity that an assertion gives has an active sudo session at a second only if the claims
-- themselves have one then.
pub has_active_sudo-identity_of :
    (claims : Claims) (now : ℤ)
    → has_active_sudo (some (identity_of claims)) (at_second now) ≡ true
    → claims_have_active_sudo claims now ≡ true
unfolding has_active_sudo claims_have_active_sudo
has_active_sudo-identity_of claims now h =
    elim (Bool-cases (ltb_ℤ (pos 0) claims.sudo_expires_at)) [
      | inl later ↦
          let active = rw (later, has_active_sudo) at h in
          let before = at_second_mono now claims.sudo_expires_at active in ground arith
      | inr never ↦ absurd (let active = rw (never, has_active_sudo) at h in cc)
    ]
