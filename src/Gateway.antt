-- ===== src/Gateway.antt =====
-- The middleware of backend/cmd/server/main.go (withMaxBytes, withCORS, loggingMiddleware) and of
-- backend/internal/telemetry/observability.go, around a router. A handler takes the request and
-- the response headers that are set so far. Header names are in canonical form.
pub mod Served
mod Tests
use Prim.Native.String.{◌++◌ as str_append}
use geo_querry.Prelude.{
  ℕ, String, Bool, true, false, ◌||◌, Option, none, some, List, [], ◌∷◌, ◌++◌, str_eq,
  if◌then◌else◌, any,
}
use geo_querry.Prelude.Int.{ℤ, ltb_ℤ}

-- `content_length` is -1 where it is unknown. `body_limit` is the cap of a MaxBytesReader and
-- `correlation_id` the value in the context, once they are set.
pub record Request : Type 0 where
  pub method : String
  pub path : String
  pub origin : String
  pub correlation_header : String
  pub content_length : ℤ
  pub body_limit : Option ℤ
  pub correlation_id : Option String

abbrev pub Headers : Type 0
Headers = List (String × String)

pub data LogLine : Type 0 where
  access : String → String → ℕ → LogLine
  http : String → String → String → LogLine

pub record Response : Type 0 where
  pub status : ℕ
  pub headers : Headers
  pub body : String
  pub log : List LogLine

abbrev pub Handler : Type 0
Handler = Request → Headers → Response

-- w.Header().Set
abbrev pub set_header : String → String → Headers → Headers
set_header name value [] = (name, value) ∷ []
set_header name value ((n, v) ∷ hs) =
    let rest = set_header name value hs in
    if str_eq n name then (name, value) ∷ hs else (n, v) ∷ rest

-- w.Header().Get; an absent header is none
abbrev pub get_header : String → Headers → Option String
get_header name [] = none
get_header name ((n, v) ∷ hs) =
    let rest = get_header name hs in if str_eq n name then some v else rest

-- withMaxBytes; http.Error answers the text with the headers of a plain text.
abbrev pub with_max_bytes : (ℤ → String) → Handler → ℤ → Handler
with_max_bytes digits next max_bytes r hs =
    if ltb_ℤ max_bytes r.content_length
    then record {
      status = 413;
      headers =
          set_header "X-Content-Type-Options" "nosniff"
            (set_header "Content-Type" "text/plain; charset=utf-8" hs);
      body = str_append "payload exceeds " (str_append (digits max_bytes) " bytes\n");
      log = [];
    }
    else next (record r { body_limit = some max_bytes }) hs

-- `o == "*" || o == origin`, over the allowed origins
abbrev pub is_allowed : List String → String → Bool
is_allowed allowed_origins origin = any (λ o. str_eq o "*" || str_eq o origin) allowed_origins

-- The headers that withCORS sets for an allowed origin.
abbrev pub cors_headers : String → Headers → Headers
cors_headers origin hs = set_header "Access-Control-Max-Age" "7200" (
    set_header "Access-Control-Expose-Headers" "Connect-Protocol-Version, X-Correlation-ID" (
      set_header "Access-Control-Allow-Headers"
        "Content-Type, Connect-Protocol-Version, Authorization, X-Geoquerry-Api-Key, Connect-Timeout-Ms, X-Correlation-ID"
        (set_header "Access-Control-Allow-Methods" "POST, GET, OPTIONS" (
          set_header "Access-Control-Allow-Origin" (if str_eq origin "" then "*" else origin) hs))))

-- withCORS
abbrev pub with_cors : List String → Handler → Handler
with_cors allowed_origins next r hs =
    let hs' = (if is_allowed allowed_origins r.origin then cors_headers r.origin hs else hs) in
    if str_eq r.method "OPTIONS"
    then record { status = 204; headers = hs'; body = ""; log = [] }
    else next r hs'

-- `corrID`, for which `random` is the hex of sixteen random bytes
abbrev pub correlation_of : String → Request → String
correlation_of random r = if str_eq r.correlation_header "" then random else r.correlation_header

-- ObservabilityMiddleware; the line it logs has no query
abbrev pub observability : String → Handler → Handler
observability random next r hs =
    let id = correlation_of random r in
    let res = next (record r { correlation_id = some id }) (set_header "X-Correlation-Id" id hs) in
    record res { log = res.log ++ http r.method r.path id ∷ [] }

-- loggingMiddleware
abbrev pub logging : Handler → Handler
logging next r hs =
    let res = next r hs in record res { log = res.log ++ access r.method r.path res.status ∷ [] }

-- The handler of the server.
unfoldable pub serve : (ℤ → String) → ℤ → List String → String → Handler → Handler
serve digits max_body_bytes allowed_origins random mux =
    with_max_bytes digits (with_cors allowed_origins (observability random (logging mux)))
      max_body_bytes

-- What Ping of the pool comes to, if there is a pool.
pub data Pool : Type 0 where
  no_pool : Pool
  ping_failed : Pool
  alive : Pool

abbrev pub json_answer : ℕ → String → Handler
json_answer status body r hs = record {
  status = status;
  headers = set_header "Content-Type" "application/json" hs;
  body = body;
  log = [];
}

-- HealthzHandler; `alive_body` is the JSON of the clock
abbrev pub healthz : String → Handler
healthz alive_body = json_answer 200 alive_body

-- ReadyzHandler
abbrev pub readyz : Pool → String → Handler
readyz no_pool ready_body =
    json_answer 503 "{\"reason\":\"database pool uninitialized\",\"status\":\"unready\"}\n"
readyz ping_failed ready_body =
    json_answer 503 "{\"reason\":\"database ping failed\",\"status\":\"unready\"}\n"
readyz alive ready_body = json_answer 200 ready_body
