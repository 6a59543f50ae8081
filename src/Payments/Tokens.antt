-- ===== src/Payments/Tokens.antt =====
-- The token cache of backend/internal/mpesa/daraja.go: accessToken over any number of calls.

use mathlib.Core.List.{Memᴰ}
use geo_querry.Prelude.{
  ℕ, ◌*◌, ◌^◌, String, ◌≡◌, ◌≢◌, refl, subst, ◌⊎◌, inl, inr, true, Option, none, some, List, [],
  ◌∷◌, str_eq, ◌==◌, arith, eq_iff, Bool-cases,
}
use geo_querry.Prelude.Int.{ℤ, pos, ◌+ℤ◌, ◌-ℤ◌, ◌≤ℤ◌, ◌<ℤ◌, ltb_ℤ, wrap64, +ℤ_parts}
use geo_querry.Prelude.Outcome.{Outcome, failure, success}
use geo_querry.Payments.{Reply, unreachable, replied}
use geo_querry.Payments.Daraja.{
  Client, TokenCache, TokenRequest, TokenReply, MpesaError, Formats, empty_cache,
  positive_or_default, cache_time, decode_token, take_token, is_cached, token_request, access_token,
}

cache_time_bound : (secs : ℕ) → cache_time secs +ℤ pos (120 * 10 ^ 9) ≤ℤ pos (secs * 10 ^ 9)
unfolding cache_time wrap64 ◌-ℤ◌ ◌+ℤ◌
cache_time_bound secs = ground arith

-- One call of accessToken: the clock before and after, and the server.
pub record Call : Type 0 where
  pub now : ℤ
  pub later : ℤ
  pub oauth : TokenRequest → Reply

-- Daraja answered the call with this token, for so many seconds.
pub record IsGrant (formats : Formats) (later : ℤ) (reply : Reply) (token : String) (secs : ℕ)
    : Type 0 where
  pub body : String
  pub answered : reply ≡ replied 200 body
  pub tok : TokenReply
  pub decoded : formats.token_of body ≡ some tok
  pub same : tok.access_token ≡ token
  pub given : token ≢ ""
  pub lifetime : positive_or_default (formats.atoi tok.expires_in) ≡ secs

-- What a call leaves: what was there, or the token of its reply.
data Taken (formats : Formats) (later : ℤ) (reply : Reply) (cache : TokenCache)
    : Outcome MpesaError String × TokenCache → Type 0 where
  denied : (e : MpesaError) → Taken formats later reply cache (failure e, cache)
  granted :
      (token : String) (secs : ℕ)
      → IsGrant formats later reply token secs
      → Taken formats later reply cache
          (success token, record { token = token; expiry = later +ℤ cache_time secs })

module _ (formats : Formats) where
  take_token-Taken :
      (later : ℤ) (reply : Reply) (cache : TokenCache)
      → Taken formats later reply cache (take_token formats later reply cache)
  take_token-Taken later unreachable cache = denied _
  take_token-Taken later (replied status body) cache = elim (Bool-cases (status == 200)) [
    | inr bad ↦ rw bad (denied _)
    | inl fine ↦ rw fine (decoded (formats.token_of body) refl (ground arith))
  ]
    where
      decoded :
          (o : Option TokenReply)
          → formats.token_of body ≡ o
          → status ≡ 200
          → Taken formats later (replied status body) cache (decode_token formats later o cache)
      decoded none e ok = denied _
      decoded (some tok) e ok = elim (Bool-cases (str_eq tok.access_token "")) [
        | inl empty ↦ rw empty (denied _)
        | inr full ↦ rw full (
            granted _ _ (record {
              body = body;
              answered = rw ok refl;
              tok = tok;
              decoded = e;
              same = refl;
              given = λ h. ground (arith, eq_iff tok.access_token "");
              lifetime = refl;
            }))
      ]

success_injective :
    {a b : String} → ◌≡◌ {A = Outcome MpesaError String} (success a) (success b) → a ≡ b
success_injective e = cc

module _ (formats : Formats) (c : Client) where
  -- The cache after calls, the last of which is the first of the list.
  unfoldable pub after : List Call → TokenCache
  after [] = empty_cache
  after (k ∷ earlier) = (access_token formats c k.oauth k.now k.later (after earlier)).1

  pub IsGrantOf : Call → String → ℕ → Type 0
  IsGrantOf k = IsGrant formats k.later (k.oauth (token_request c))

  -- The call got the token itself, or uses one that an earlier call got.
  pub data Held (k : Call) (earlier : List Call) (token : String) : Type 0 where
    fetched : (secs : ℕ) → IsGrantOf k token secs → Held k earlier token
    reused :
        (g : Call) (secs : ℕ)
        → Memᴰ g earlier
        → IsGrantOf g token secs
        → k.now +ℤ pos (120 * 10 ^ 9) <ℤ g.later +ℤ pos (secs * 10 ^ 9)
        → Held k earlier token

  -- where the cached token comes from
  Origin : List Call → TokenCache → Type 0
  Origin calls cache =
      (cache.token ≡ "")
      ⊎ ((g : Call) × (secs : ℕ) × Memᴰ g calls
          × IsGrantOf g cache.token secs
          × (cache.expiry ≡ g.later +ℤ cache_time secs))

  Origin-cons :
      (k : Call) (calls : List Call) (cache : TokenCache)
      → Origin calls cache
      → Origin (k ∷ calls) cache
  unfolding Origin
  Origin-cons k calls cache (inl e) = inl e
  Origin-cons k calls cache (inr (g, secs, m, grant, e)) = inr (g, secs, Memᴰ.tail m, grant, e)

  access_token-Origin :
      (k : Call) (earlier : List Call) (cache : TokenCache)
      → Origin earlier cache
      → Origin (k ∷ earlier) ((access_token formats c k.oauth k.now k.later cache).1)
  unfolding Origin IsGrantOf access_token
  access_token-Origin k earlier cache o = elim (Bool-cases (is_cached k.now cache)) [
    | inl hit ↦ rw (access_token, hit) (Origin-cons k earlier cache o)
    | inr miss ↦
        rw (access_token, miss)
          (kept _ (take_token-Taken formats k.later (k.oauth (token_request c)) cache))
  ]
    where
      kept :
          (r : Outcome MpesaError String × TokenCache)
          → Taken formats k.later (k.oauth (token_request c)) cache r
          → Origin (k ∷ earlier) (r.1)
      kept _ (denied e) = Origin-cons k earlier cache o
      kept _ (granted token secs g) = inr (k, secs, Memᴰ.head refl, g, refl)

  after-Origin : (calls : List Call) → Origin calls (after calls)
  unfolding after Origin
  after-Origin [] = inl refl
  after-Origin (k ∷ earlier) = access_token-Origin k earlier (after earlier) (after-Origin earlier)

  unexpired :
      (now expiry later : ℤ) (secs : ℕ)
      → ltb_ℤ now expiry ≡ true
      → expiry ≡ later +ℤ cache_time secs
      → now +ℤ pos (120 * 10 ^ 9) <ℤ later +ℤ pos (secs * 10 ^ 9)
  unexpired now expiry later secs before e = ground (
    arith,
    cache_time_bound secs,
    +ℤ_parts now (pos (120 * 10 ^ 9)),
    +ℤ_parts later (pos (secs * 10 ^ 9)),
    +ℤ_parts later (cache_time secs),
    +ℤ_parts (cache_time secs) (pos (120 * 10 ^ 9)),
  )

  reuse :
      (k : Call) (earlier : List Call) (cache : TokenCache)
      → is_cached k.now cache ≡ true
      → Origin earlier cache
      → Held k earlier cache.token
  unfolding Origin
  reuse k earlier cache hit (inl e) =
      absurd (let same = (eq_iff cache.token "").1 e in ground (arith))
  reuse k earlier cache hit (inr (g, secs, m, grant, e)) =
      reused g secs m grant (unexpired k.now cache.expiry g.later secs (ground arith) e)

  -- A token that accessToken returns, after any calls from an empty cache, is not empty; Daraja
  -- gave it in a 200 reply to this call, or to an earlier one, and then it is more than two minutes
  -- before the end of the lifetime that Daraja stated (3599 s if it stated no positive number).
  pub access_token-Held :
      (earlier : List Call) (k : Call) (token : String)
      → (access_token formats c k.oauth k.now k.later (after earlier)).0 ≡ success token
      → Held k earlier token
  unfolding access_token IsGrantOf
  access_token-Held earlier k token = elim (Bool-cases (is_cached k.now (after earlier))) [
    | inl hit ↦
        rw (access_token, hit)
          (λ e.
            subst (Held k earlier) (success_injective e)
              (reuse k earlier (after earlier) hit (after-Origin earlier)))
    | inr miss ↦
        rw (access_token, miss)
          (got _ (take_token-Taken formats k.later (k.oauth (token_request c)) (after earlier)))
  ]
    where
      got :
          (r : Outcome MpesaError String × TokenCache)
          → Taken formats k.later (k.oauth (token_request c)) (after earlier) r
          → r.0 ≡ success token
          → Held k earlier token
      got _ (denied x) e = absurd (cc)
      got _ (granted t secs g) e =
          fetched secs (subst (λ u. IsGrantOf k u secs) (success_injective e) g)
