-- ===== src/Config/Tests.antt =====
-- A configuration with a database, a port and M-Pesa.
use geo_querry.Prelude.{String, ◌≡◌, refl, none, some, List, [], ◌∷◌, str_eq, if◌then◌else◌, any}
use geo_querry.Prelude.Int.{pos}
use geo_querry.Config.{Parsers, Config, int32, settings, fatal, load}
use geo_querry.Config.Bounds.{IsRunnable, load-IsRunnable}

abbrev parsers : Parsers
parsers = record {
  atoi = λ s.
      if str_eq s "8080"
      then some (pos 8080)
      else if str_eq s "99999999999"
      then some (pos 99999999999)
      else none;
  parse_int = λ s. none;
  parse_duration = λ s. none;
  split_commas = λ s. if str_eq s "a,b" then "a" ∷ "b" ∷ [] else s ∷ [];
  trim = λ s. s;
}

abbrev filled : List String
filled =
    "DATABASE_URL" ∷ "MPESA_SHORTCODE" ∷ "MPESA_PASSKEY" ∷ "MPESA_CONSUMER_KEY"
    ∷ "MPESA_CONSUMER_SECRET" ∷ "MPESA_WEBHOOK_SECRET" ∷ []

abbrev getenv : String → String
getenv key =
    if any (str_eq key) filled
    then "x"
    else if str_eq key "MPESA_ENV"
    then "sandbox"
    else if str_eq key "CORS_ALLOWED_ORIGINS"
    then "a,b"
    else ""

abbrev config : Config
config = settings parsers getenv (pos 4) (pos 1)

load-IsRunnable_example : IsRunnable parsers config
unfolding load int32
load-IsRunnable_example = load-IsRunnable parsers getenv config refl

-- a pool size out of range ends the process
abbrev getenv_fat : String → String
getenv_fat key = if str_eq key "DB_MAX_CONNS" then "99999999999" else getenv key

out_of_range : load parsers getenv_fat ≡ fatal "DB_MAX_CONNS"
unfolding load
out_of_range = refl
