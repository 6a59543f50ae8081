-- ===== src/Auth/Interceptor.antt =====
-- The gates of interceptor.go and interceptor_combined.go. SHA-256 and the header map are not of
-- the repository: `sha` is an argument, and a request is what it carries in the two headers.
pub mod Gates
use geo_querry.Prelude.{
  ℕ, suc, String, Bool, true, false, not, ◌&&◌, Option, none, some, List, [], ◌∷◌, str_eq,
  if◌then◌else◌, any, map, ◌*◌, ◌-◌, ◌^◌,
}
use geo_querry.Prelude.Int.{ℤ, pos, negsuc, ltb_ℤ}
use geo_querry.Assertion.{Claims, Codec, Verifier, VerifyError, Verdict, accept, reject, verify}
use geo_querry.Auth.Identity.{Identity}

-- What the two headers hold; an absent header reads as "". `bearer` is the authorization header
-- after the prefix "Bearer ", when it has that prefix.
pub record Headers : Type 0 where
  pub bearer : Option String
  pub api_key : String

pub data Refusal : Type 0 where
  missing_header : Refusal
  invalid_api_key : Refusal
  unauthorized : Refusal
  bad_assertion : VerifyError → Refusal

-- NewAPIKeyInterceptor; none is the nil that stands for a disabled gate.
abbrev pub new_api_key_interceptor : (String → String) → List String → Option (List String)
new_api_key_interceptor sha [] = none
new_api_key_interceptor sha (k ∷ keys) = some (map sha (k ∷ keys))

abbrev pub matches : (String → String) → List String → String → Bool
matches sha hashed_keys presented = any (λ want. str_eq (sha presented) want) hashed_keys

-- verify of the interceptor; no error is none.
unfoldable pub verify_key : (String → String) → List String → Headers → Option Refusal
verify_key sha hashed_keys header =
    if str_eq header.api_key ""
    then some missing_header
    else if matches sha hashed_keys header.api_key
    then none
    else some invalid_api_key

-- The answer of a guarded call: that of the handler, or a refusal before it.
pub data Guarded (A : Type 0) : Type 0 where
  ran : A → Guarded A
  refused : Refusal → Guarded A

-- WrapUnary and WrapStreamingHandler of the interceptor
unfoldable pub wrap_key :
    {A : Type 0} → (String → String) → List String → Headers → (Headers → A) → Guarded A
unfolding verify_key
wrap_key sha hashed_keys header next = elim (verify_key sha hashed_keys header) [
  | some e ↦ refused e
  | none ↦ ran (next header)
]

pub record CombinedInterceptor : Type 0 where
  pub verifier : Option Verifier
  pub hashed_keys : List String

-- the digests of the keys that are not empty
abbrev hash_all : (String → String) → List String → List String
hash_all sha [] = []
hash_all sha (k ∷ keys) = let rest = hash_all sha keys in if str_eq k "" then rest else sha k ∷ rest

-- NewCombinedInterceptor
unfoldable pub new_combined_interceptor :
    (String → String) → Option Verifier → List String → CombinedInterceptor
new_combined_interceptor sha verifier api_keys = record {
  verifier = verifier;
  hashed_keys = hash_all sha api_keys;
}

-- time.Unix(s, 0), in nanoseconds
abbrev pub at_second : ℤ → ℤ
at_second (pos n) = pos (n * 1000000000)
at_second (negsuc n) = negsuc (suc n * 1000000000 - 1)

abbrev pub identity_of : Claims → Identity
identity_of claims = record {
  user_id = claims.subject;
  subject = claims.subject;
  auth_time = at_second claims.auth_time;
  auth_methods = claims.auth_method_refs;
  sudo_expires_at =
      if ltb_ℤ (pos 0) claims.sudo_expires_at
      then some (at_second claims.sudo_expires_at)
      else none;
  is_service_auth = false;
}

abbrev pub service_identity : ℤ → Identity
service_identity now_ns = record {
  user_id = "service-worker";
  subject = "service-account";
  auth_time = now_ns;
  auth_methods = [];
  sudo_expires_at = none;
  is_service_auth = true;
}

abbrev pub is_empty : List String → Bool
is_empty [] = true
is_empty (x ∷ xs) = false

abbrev pub is_some : {A : Type 0} → Option A → Bool
is_some none = false
is_some (some a) = true

-- authenticate, once no assertion is looked at. The answer is the identity that the context
-- carries to the handler, none when it carries none.
unfoldable pub authenticate_key :
    (String → String) → ℤ → CombinedInterceptor → Headers → Guarded (Option Identity)
authenticate_key sha now_ns ci header =
    if not (str_eq header.api_key "") && not (is_empty ci.hashed_keys)
    then if matches sha ci.hashed_keys header.api_key
      then ran (some (service_identity now_ns))
      else refused unauthorized
    else if not (is_some ci.verifier) && is_empty ci.hashed_keys
    then ran none
    else refused unauthorized

abbrev pub of_verdict : Verdict → Guarded (Option Identity)
of_verdict (accept claims) = ran (some (identity_of claims))
of_verdict (reject e) = refused (bad_assertion e)

-- the branch of authenticate on the bearer token and the verifier
unfoldable pub by_token :
    Codec
    → (String → String)
    → ℤ
    → ℤ
    → CombinedInterceptor
    → Headers
    → Option String
    → Option Verifier
    → Guarded (Option Identity)
unfolding authenticate_key verify
by_token codec sha now now_ns ci header none verifier = authenticate_key sha now_ns ci header
by_token codec sha now now_ns ci header (some token) none = authenticate_key sha now_ns ci header
by_token codec sha now now_ns ci header (some token) (some v) =
    of_verdict (verify codec v token now)

-- authenticate; the clock is read as Unix seconds by Verify and as an instant for a service.
unfoldable pub authenticate :
    Codec → (String → String) → ℤ → ℤ → CombinedInterceptor → Headers → Guarded (Option Identity)
unfolding by_token
authenticate codec sha now now_ns ci header =
    by_token codec sha now now_ns ci header header.bearer ci.verifier

-- `if err != nil { return err }; return next(newCtx, …)`
abbrev pub pass : {A : Type 0} → Guarded (Option Identity) → (Option Identity → A) → Guarded A
pass (ran ident) next = ran (next ident)
pass (refused e) next = refused e

-- WrapUnary and WrapStreamingHandler of the combined gate
unfoldable pub wrap_combined :
    {A : Type 0}
    → Codec
    → (String → String)
    → ℤ
    → ℤ
    → CombinedInterceptor
    → Headers
    → (Option Identity → A)
    → Guarded A
unfolding authenticate
wrap_combined codec sha now now_ns ci header next =
    pass (authenticate codec sha now now_ns ci header) next
