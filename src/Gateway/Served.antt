-- ===== src/Gateway/Served.antt =====
-- What the server's middleware does to a request.
use mathlib.Core.List.{Memᴰ}
use geo_querry.Prelude.{
  String, ◌≡◌, ◌≢◌, ◌↔◌, ◌⊎◌, inl, inr, refl, true, Option, none, some, List, [], ◌∷◌, ◌++◌, str_eq,
  if◌then◌else◌, arith, eq_iff, Bool-cases,
}
use geo_querry.Prelude.Int.{ℤ, ◌≤ℤ◌, ◌<ℤ◌, ltb_ℤ}
use geo_querry.Gateway.{
  Request, Headers, Handler, Response, access, http, set_header, get_header, is_allowed,
  cors_headers, correlation_of, observability, logging, serve,
}

-- The origin, or any, is among the allowed ones.
pub IsAllowed : List String → String → Type 0
IsAllowed origins origin = (o : String) × Memᴰ o origins × ((o ≡ "*") ⊎ (o ≡ origin))

is_allowed_sound :
    (origins : List String) (origin : String)
    → is_allowed origins origin ≡ true
    → IsAllowed origins origin
unfolding IsAllowed
is_allowed_sound [] origin h = absurd (cc)
is_allowed_sound (o ∷ os) origin h = elim (Bool-cases (str_eq o "*")) [
  | inl star ↦ (o, Memᴰ.head refl, inl ((eq_iff o "*").0 star))
  | inr star ↦ elim (Bool-cases (str_eq o origin)) [
    | inl same ↦ (o, Memᴰ.head refl, inr ((eq_iff o origin).0 same))
    | inr same ↦
        let (x, m, why) = is_allowed_sound os origin (ground arith) in (x, Memᴰ.tail m, why)
  ]
]

is_allowed_complete :
    (origin o : String) (origins : List String)
    → Memᴰ o origins
    → (o ≡ "*") ⊎ (o ≡ origin)
    → is_allowed origins origin ≡ true
is_allowed_complete origin o _ (Memᴰ.head e) why = elim why [
  | inl w ↦ rw (← e, (eq_iff o "*").1 w) refl
  | inr w ↦ rw (← e, (eq_iff o origin).1 w) (ground arith)
]
is_allowed_complete origin o _ (Memᴰ.tail m) why =
    let rest = is_allowed_complete origin o _ m why in ground arith

is_allowed_iff :
    (origins : List String) (origin : String)
    → (is_allowed origins origin ≡ true) ↔ IsAllowed origins origin
unfolding IsAllowed
is_allowed_iff origins origin =
    (is_allowed_sound origins origin, λ (o, m, why). is_allowed_complete origin o origins m why)

abbrev pub allow_origin : Headers → Option String
allow_origin = get_header "Access-Control-Allow-Origin"

-- The headers with which the request goes on, or is answered: those of a listed origin, or none.
pub data Opened (origins : List String) (origin : String) : Headers → Type 0 where
  listed :
      (hs : Headers)
      → IsAllowed origins origin
      → allow_origin hs ≡ some (if str_eq origin "" then "*" else origin)
      → Opened origins origin hs
  unlisted : ¬ IsAllowed origins origin → Opened origins origin []

opened :
    (origins : List String) (origin : String)
    → Opened origins origin (if is_allowed origins origin then cors_headers origin [] else [])
opened origins origin = elim (Bool-cases (is_allowed origins origin)) [
  | inl in_list ↦ rw in_list (listed _ (is_allowed_sound origins origin in_list) refl)
  | inr not_in ↦
      rw not_in (unlisted (λ a. let in_list = (is_allowed_iff origins origin).1 a in absurd (cc)))
]

-- How the server answers a request.
pub data Served (max_body_bytes : ℤ) (origins : List String) (random : String) (mux : Handler)
    (r : Request) : Response → Type 0 where
  too_large :
      (res : Response)
      → max_body_bytes <ℤ r.content_length
      → res.status ≡ 413
      → allow_origin res.headers ≡ none
      → Served max_body_bytes origins random mux r res
  preflight :
      (res : Response)
      → r.content_length ≤ℤ max_body_bytes
      → r.method ≡ "OPTIONS"
      → res.status ≡ 204
      → Opened origins r.origin res.headers
      → Served max_body_bytes origins random mux r res
  routed :
      (res inner : Response) (hs : Headers) (id : String)
      → r.content_length ≤ℤ max_body_bytes
      → r.method ≢ "OPTIONS"
      → Opened origins r.origin hs
      → id ≡ correlation_of random r
      → inner
        ≡ mux
            (record r { body_limit = some max_body_bytes; correlation_id = some id })
            (set_header "X-Correlation-Id" id hs)
      → res ≡ record inner {
        log = inner.log ++ access r.method r.path inner.status ∷ [] ++ http r.method r.path id ∷ [];
      }
      → Served max_body_bytes origins random mux r res

module _ (digits : ℤ → String) (max_body_bytes : ℤ) (origins : List String) (random : String)
    (mux : Handler) (r : Request) where
  routed_so :
      (hs : Headers)
      → r.content_length ≤ℤ max_body_bytes
      → r.method ≢ "OPTIONS"
      → Opened origins r.origin hs
      → Served max_body_bytes origins random mux r
          (observability random (logging mux) (record r { body_limit = some max_body_bytes }) hs)
  routed_so hs small other o = routed _ _ hs _ small other o refl refl refl

  -- The server refuses a declared length above the cap with 413, answers any other OPTIONS with 204
  -- without routing it, and routes all else with the cap on the body and the correlation id in the
  -- context and the headers, logging one line of access and one of the id. The header
  -- Access-Control-Allow-Origin is set, except on a 413, exactly where the origin or * is listed,
  -- and then to the origin, or to * for a request that names none.
  pub serve-Served :
      Served max_body_bytes origins random mux r
        (serve digits max_body_bytes origins random mux r [])
  unfolding serve
  serve-Served = elim (Bool-cases (ltb_ℤ max_body_bytes r.content_length)) [
    | inl large ↦ rw (serve, large) (too_large _ (ground arith) refl refl)
    | inr large ↦ elim (Bool-cases (str_eq r.method "OPTIONS")) [
      | inl options ↦
          rw (serve, large, options)
            (preflight _ (ground arith) ((eq_iff r.method "OPTIONS").0 options) refl
              (opened origins r.origin))
      | inr options ↦
          rw (serve, large, options)
            (routed_so _ (ground arith) (λ same. ground (arith, eq_iff r.method "OPTIONS"))
              (opened origins r.origin))
    ]
  ]
