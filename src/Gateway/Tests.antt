-- ===== src/Gateway/Tests.antt =====
-- Requests to a server with one listed origin.
use geo_querry.Prelude.{String, ◌≡◌, refl, none, [], ◌∷◌}
use geo_querry.Prelude.Int.{pos, negsuc}
use geo_querry.Gateway.{Request, Handler, access, http, serve}
use geo_querry.Gateway.Served.{Served, serve-Served}

abbrev request : String → String → Request
request method origin = record {
  method = method;
  path = "/rpc";
  origin = origin;
  correlation_header = "";
  content_length = negsuc 0;
  body_limit = none;
  correlation_id = none;
}

abbrev mux : Handler
mux r hs = record { status = 200; headers = hs; body = "ok"; log = [] }

serve-Served_example :
    Served
      (pos 100)
      ("https://a" ∷ [])
      "ff"
      mux
      (request "POST" "https://a")
      (serve (λ n. "100") (pos 100) ("https://a" ∷ []) "ff" mux (request "POST" "https://a") [])
serve-Served_example =
    serve-Served (λ n. "100") (pos 100) ("https://a" ∷ []) "ff" mux (request "POST" "https://a")

logged :
    (serve (λ n. "100") (pos 100) ("https://a" ∷ []) "ff" mux (request "POST" "https://a") []).log
    ≡ access "POST" "/rpc" 200 ∷ http "POST" "/rpc" "ff" ∷ []
unfolding serve
logged = refl

-- with no list of origins, no origin is allowed
closed : (serve (λ n. "100") (pos 100) [] "ff" mux (request "OPTIONS" "https://a") []).headers ≡ []
unfolding serve
closed = refl
