-- ===== src/Config.antt =====
-- The settings of backend/internal/config/config.go. The environment is a function, which answers
-- the empty text for a variable that is not set; strconv, time.ParseDuration and the functions of
-- strings are `Parsers`. Durations are in nanoseconds.
pub mod Bounds
mod Tests
use geo_querry.Prelude.{
  ℕ, ◌-◌, ◌*◌, ◌^◌, String, Bool, true, false, not, ◌&&◌, ◌||◌, Option, none, some, List, [], ◌∷◌,
  str_eq, if◌then◌else◌, leb,
}
use Prim.Native.Nat.{◌%◌}
use geo_querry.Prelude.Int.{ℤ, pos, negsuc, ◌-ℤ◌, ltb_ℤ}

pub record Parsers : Type 0 where
  pub atoi : String → Option ℤ
  pub parse_int : String → Option ℤ
  pub parse_duration : String → Option ℤ
  pub split_commas : String → List String
  pub trim : String → String

pub record Config : Type 0 where
  pub port : String
  pub database_url : String
  pub db_max_conns : ℤ
  pub db_min_conns : ℤ
  pub allowed_origins : List String
  pub telemetry_member_ttl : ℤ
  pub api_keys : List String
  pub r2_account_id : String
  pub r2_access_key_id : String
  pub r2_secret_access_key : String
  pub r2_bucket : String
  pub photo_put_ttl : ℤ
  pub photo_max_bytes : ℤ
  pub mpesa_enabled : Bool
  pub mpesa_env : String
  pub mpesa_shortcode : String
  pub mpesa_passkey : String
  pub mpesa_consumer_key : String
  pub mpesa_consumer_sec : String
  pub mpesa_webhook_token : String
  pub paystack_enabled : Bool
  pub paystack_key : String
  pub max_body_bytes : ℤ
  pub shutdown_timeout : ℤ

pub data ConfigError : Type 0 where
  payment_incomplete : ConfigError
  database_url_missing : ConfigError
  bad_port : String → ConfigError
  pool_inverted : ConfigError

-- Load returns, or log.Fatalf ends the process at the named variable.
pub data Loading : Type 0 where
  fatal : String → Loading
  refused : ConfigError → Loading
  loaded : Config → Loading

-- int32(n) of an int
unfoldable pub int32 : ℤ → ℤ
unfolding ◌-ℤ◌
int32 (pos n) = let m = n % 2 ^ 32 in if leb (2 ^ 31) m then pos m -ℤ pos (2 ^ 32) else pos m
int32 (negsuc n) =
    let m = 2 ^ 32 - 1 - n % 2 ^ 32 in if leb (2 ^ 31) m then pos m -ℤ pos (2 ^ 32) else pos m

abbrev pub or_fallback : {A : Type 0} → Option A → A → A
or_fallback none fallback = fallback
or_fallback (some a) fallback = a

-- `if b { return Config{}, e }`
abbrev pub stop_if : Bool → ConfigError → Loading → Loading
stop_if true e rest = refused e
stop_if false e rest = rest

-- the value of envIntInRange, or the end of the process
abbrev pub with_int : String → Option ℤ → (ℤ → Loading) → Loading
with_int key none rest = fatal key
with_int key (some n) rest = rest n

-- `if k = strings.TrimSpace(k); k != ""`, over the parts of a list
abbrev pub trimmed : (String → String) → List String → List String
trimmed trim [] = []
trimmed trim (s ∷ ss) =
    let rest = trimmed trim ss in if str_eq (trim s) "" then rest else trim s ∷ rest

-- `p, err := strconv.Atoi(cfg.Port); err != nil || p < 1 || p > 65535`
abbrev pub is_bad_port : Option ℤ → Bool
is_bad_port none = true
is_bad_port (some p) = ltb_ℤ p (pos 1) || ltb_ℤ (pos 65535) p

module _ (parsers : Parsers) (getenv : String → String) where
  -- envOr
  abbrev pub env_or : String → String → String
  env_or key fallback = if str_eq (getenv key) "" then fallback else getenv key

  -- envInt64Or
  abbrev pub env_int64_or : String → ℤ → ℤ
  env_int64_or key fallback =
      if str_eq (getenv key) ""
      then fallback
      else or_fallback (parsers.parse_int (getenv key)) fallback

  -- envDurationOr
  abbrev pub env_duration_or : String → ℤ → ℤ
  env_duration_or key fallback =
      if str_eq (getenv key) ""
      then fallback
      else or_fallback (parsers.parse_duration (getenv key)) fallback

  abbrev pub in_range : ℤ → ℤ → Option ℤ → Option ℤ
  in_range min max none = none
  in_range min max (some n) = if ltb_ℤ n min || ltb_ℤ max n then none else some n

  -- envIntInRange: none is log.Fatalf.
  abbrev pub env_int_in_range : String → ℤ → ℤ → ℤ → Option ℤ
  env_int_in_range key fallback min max =
      if str_eq (getenv key) "" then some fallback else in_range min max (parsers.atoi (getenv key))

  abbrev pub env_list : String → List String
  env_list key =
      if str_eq (getenv key) ""
      then []
      else trimmed parsers.trim (parsers.split_commas (getenv key))

  abbrev pub mpesa_on : Bool
  mpesa_on = str_eq (getenv "MPESA_ENV") "sandbox" || str_eq (getenv "MPESA_ENV") "production"

  abbrev pub if_mpesa : String → String
  if_mpesa key = if mpesa_on then getenv key else ""

  -- The fields of the configuration, with these sizes of the pool.
  abbrev pub settings : ℤ → ℤ → Config
  settings max_conns min_conns = record {
    port = env_or "PORT" "8080";
    database_url = getenv "DATABASE_URL";
    db_max_conns = int32 max_conns;
    db_min_conns = int32 min_conns;
    allowed_origins = env_list "CORS_ALLOWED_ORIGINS";
    telemetry_member_ttl = env_duration_or "TELEMETRY_MEMBER_TTL" (pos (60 * 10 ^ 9));
    api_keys = env_list "GEOQUERRY_API_KEYS";
    r2_account_id = getenv "R2_ACCOUNT_ID";
    r2_access_key_id = getenv "R2_ACCESS_KEY_ID";
    r2_secret_access_key = getenv "R2_SECRET_ACCESS_KEY";
    r2_bucket = getenv "R2_BUCKET";
    photo_put_ttl = env_duration_or "R2_PUT_TTL" (pos (300 * 10 ^ 9));
    photo_max_bytes = env_int64_or "PHOTO_MAX_BYTES" (pos (15 * 2 ^ 20));
    mpesa_enabled = mpesa_on;
    mpesa_env = getenv "MPESA_ENV";
    mpesa_shortcode = if_mpesa "MPESA_SHORTCODE";
    mpesa_passkey = if_mpesa "MPESA_PASSKEY";
    mpesa_consumer_key = if_mpesa "MPESA_CONSUMER_KEY";
    mpesa_consumer_sec = if_mpesa "MPESA_CONSUMER_SECRET";
    mpesa_webhook_token = if_mpesa "MPESA_WEBHOOK_SECRET";
    paystack_enabled = not (str_eq (getenv "PAYSTACK_SECRET_KEY") "");
    paystack_key = getenv "PAYSTACK_SECRET_KEY";
    max_body_bytes = env_int64_or "MAX_BODY_BYTES" (pos (4 * 1024 * 1024));
    shutdown_timeout = env_duration_or "SHUTDOWN_TIMEOUT" (pos (10 * 10 ^ 9));
  }

  abbrev pub lacks_credentials : Config → Bool
  lacks_credentials cfg =
      str_eq cfg.mpesa_shortcode ""
      || str_eq cfg.mpesa_passkey ""
      || str_eq cfg.mpesa_consumer_key ""
      || str_eq cfg.mpesa_consumer_sec ""
      || str_eq cfg.mpesa_webhook_token ""

  -- the checks of Load, in their order
  abbrev pub validate : Config → Loading
  validate cfg = stop_if (cfg.mpesa_enabled && lacks_credentials cfg) payment_incomplete (
      stop_if (str_eq cfg.database_url "") database_url_missing (
        stop_if (is_bad_port (parsers.atoi cfg.port)) (bad_port cfg.port)
          (stop_if (ltb_ℤ cfg.db_max_conns cfg.db_min_conns) pool_inverted (loaded cfg))))

  -- Load
  unfoldable pub load : Loading
  unfolding int32
  load =
      with_int "DB_MAX_CONNS" (env_int_in_range "DB_MAX_CONNS" (pos 4) (pos 1) (pos 64))
        λ max_conns.
          with_int "DB_MIN_CONNS" (env_int_in_range "DB_MIN_CONNS" (pos 1) (pos 0) (pos 64))
            λ min_conns. validate (settings max_conns min_conns)
