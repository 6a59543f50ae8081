-- ===== src/Config/Bounds.antt =====
-- What holds of every configuration that Load returns.
use geo_querry.Prelude.{
  String, ◌≡◌, ◌≢◌, ◌⊎◌, inl, inr, refl, subst, Bool, true, false, ◌&&◌, ◌||◌, Option, none, some,
  List, [], ◌∷◌, str_eq, if◌then◌else◌, arith, eq_iff, Bool-cases,
}
use geo_querry.Prelude.Int.{ℤ, pos, negsuc, ◌≤ℤ◌, ltb_ℤ, ◌-ℤ◌}
use geo_querry.Config.{
  Parsers, Config, ConfigError, Loading, loaded, int32, stop_if, with_int, trimmed, is_bad_port,
  in_range, env_int_in_range, env_list, settings, lacks_credentials, validate, load,
}

-- No text of the list is empty.
abbrev pub NoBlank : List String → Type 0
NoBlank [] = Unit {0}
NoBlank (s ∷ ss) = (s ≢ "") × NoBlank ss

pub record IsRunnable (parsers : Parsers) (cfg : Config) : Type 0 where
  pub max_low : pos 1 ≤ℤ cfg.db_max_conns
  pub max_high : cfg.db_max_conns ≤ℤ pos 64
  pub min_low : pos 0 ≤ℤ cfg.db_min_conns
  pub pool : cfg.db_min_conns ≤ℤ cfg.db_max_conns
  pub database : cfg.database_url ≢ ""
  pub port_number : ℤ
  pub port_parses : parsers.atoi cfg.port ≡ some port_number
  pub port_low : pos 1 ≤ℤ port_number
  pub port_high : port_number ≤ℤ pos 65535
  pub origins : NoBlank cfg.allowed_origins
  pub keys : NoBlank cfg.api_keys
  pub credentials :
      (cfg.mpesa_enabled ≡ false)
      ⊎ ((cfg.mpesa_shortcode ≢ "")
          × (cfg.mpesa_passkey ≢ "")
          × (cfg.mpesa_consumer_key ≢ "")
          × (cfg.mpesa_consumer_sec ≢ "")
          × (cfg.mpesa_webhook_token ≢ ""))

trimmed-NoBlank : (trim : String → String) (ss : List String) → NoBlank (trimmed trim ss)
trimmed-NoBlank trim [] = tt
trimmed-NoBlank trim (s ∷ ss) = elim (Bool-cases (str_eq (trim s) "")) [
  | inl e ↦ rw e (trimmed-NoBlank trim ss)
  | inr e ↦ rw e (λ h. ground (arith, eq_iff (trim s) ""), trimmed-NoBlank trim ss)
]

int32_small : (n : ℤ) → pos 0 ≤ℤ n → n ≤ℤ pos 64 → int32 n ≡ n
unfolding int32 ◌-ℤ◌
int32_small (pos n) low high = ground arith
int32_small (negsuc n) low high = absurd (omega arith)

stop_if-loaded :
    (b : Bool) (e : ConfigError) (rest : Loading) (cfg : Config)
    → stop_if b e rest ≡ loaded cfg
    → (b ≡ false) × (rest ≡ loaded cfg)
stop_if-loaded true e rest cfg h = absurd (cc)
stop_if-loaded false e rest cfg h = (refl, h)

with_int-loaded :
    (key : String) (o : Option ℤ) (rest : ℤ → Loading) (cfg : Config)
    → with_int key o rest ≡ loaded cfg
    → (n : ℤ) × (o ≡ some n) × (rest n ≡ loaded cfg)
with_int-loaded key none rest cfg h = absurd (cc)
with_int-loaded key (some n) rest cfg h = (n, refl, h)

loaded_injective : (a b : Config) → loaded a ≡ loaded b → a ≡ b
loaded_injective a b e = cc

module _ (parsers : Parsers) (getenv : String → String) where
  in_range-bounds :
      (min max : ℤ) (o : Option ℤ) (n : ℤ)
      → in_range parsers getenv min max o ≡ some n
      → (min ≤ℤ n) × (n ≤ℤ max)
  in_range-bounds min max none n h = absurd (cc)
  in_range-bounds min max (some m) n h = chosen (ltb_ℤ m min) (ltb_ℤ max m) refl refl h
    where
      chosen :
          (a b : Bool)
          → ltb_ℤ m min ≡ a
          → ltb_ℤ max m ≡ b
          → (if a || b then none else some m) ≡ some n
          → (min ≤ℤ n) × (n ≤ℤ max)
      chosen true b p q i = absurd (cc)
      chosen false true p q i = absurd (cc)
      chosen false false p q i = let same : m ≡ n = cc in rw (← same) (ground arith)

  env_int_in_range-bounds :
      (key : String) (fallback min max n : ℤ)
      → min ≤ℤ fallback
      → fallback ≤ℤ max
      → env_int_in_range parsers getenv key fallback min max ≡ some n
      → (min ≤ℤ n) × (n ≤ℤ max)
  env_int_in_range-bounds key fallback min max n low high = given (str_eq (getenv key) "")
    where
      given :
          (b : Bool)
          → (if b
              then some fallback
              else in_range parsers getenv min max (parsers.atoi (getenv key)))
            ≡ some n
          → (min ≤ℤ n) × (n ≤ℤ max)
      given true h = let same : fallback ≡ n = cc in rw (← same) (low, high)
      given false h = in_range-bounds min max (parsers.atoi (getenv key)) n h

  env_list-NoBlank : (key : String) → NoBlank (env_list parsers getenv key)
  env_list-NoBlank key = elim (Bool-cases (str_eq (getenv key) "")) [
    | inl e ↦ rw e tt
    | inr e ↦ rw e (trimmed-NoBlank parsers.trim (parsers.split_commas (getenv key)))
  ]

  or_false5 :
      (a b c d e : Bool)
      → (a || b || c || d || e) ≡ false
      → (a ≡ false) × (b ≡ false) × (c ≡ false) × (d ≡ false) × (e ≡ false)
  or_false5 a b c d e h = ground (arith)

  given_text : (s : String) → str_eq s "" ≡ false → s ≢ ""
  given_text s h same = ground (arith, eq_iff s "")

  has_credentials :
      (cfg : Config)
      → (cfg.mpesa_enabled && lacks_credentials parsers getenv cfg) ≡ false
      → (cfg.mpesa_enabled ≡ false)
        ⊎ ((cfg.mpesa_shortcode ≢ "")
            × (cfg.mpesa_passkey ≢ "")
            × (cfg.mpesa_consumer_key ≢ "")
            × (cfg.mpesa_consumer_sec ≢ "")
            × (cfg.mpesa_webhook_token ≢ ""))
  has_credentials cfg = switched cfg.mpesa_enabled refl
    where
      switched :
          (on : Bool)
          → cfg.mpesa_enabled ≡ on
          → (on && lacks_credentials parsers getenv cfg) ≡ false
          → (cfg.mpesa_enabled ≡ false)
            ⊎ ((cfg.mpesa_shortcode ≢ "")
                × (cfg.mpesa_passkey ≢ "")
                × (cfg.mpesa_consumer_key ≢ "")
                × (cfg.mpesa_consumer_sec ≢ "")
                × (cfg.mpesa_webhook_token ≢ ""))
      switched false e h = inl e
      switched true e h =
          let (a, b, c, d, f) = or_false5 _ _ _ _ _ h in
          inr (given_text _ a, given_text _ b, given_text _ c, given_text _ d, given_text _ f)

  good_port :
      (o : Option ℤ)
      → is_bad_port o ≡ false
      → (p : ℤ) × (o ≡ some p) × (pos 1 ≤ℤ p) × (p ≤ℤ pos 65535)
  good_port none h = absurd (cc)
  good_port (some p) h = (p, refl, ground arith, ground arith)

  settings-IsRunnable :
      (max_conns min_conns : ℤ) (cfg : Config)
      → (pos 1 ≤ℤ max_conns) × (max_conns ≤ℤ pos 64)
      → (pos 0 ≤ℤ min_conns) × (min_conns ≤ℤ pos 64)
      → validate parsers getenv (settings parsers getenv max_conns min_conns) ≡ loaded cfg
      → IsRunnable parsers cfg
  settings-IsRunnable max_conns min_conns cfg (low, high) (low', high') h =
      let s = settings parsers getenv max_conns min_conns in
      let (a, h1) = stop_if-loaded _ _ _ cfg h in
      let (b, h2) = stop_if-loaded _ _ _ cfg h1 in
      let (c, h3) = stop_if-loaded _ _ _ cfg h2 in
      let (d, h4) = stop_if-loaded _ _ _ cfg h3 in
      let (port, parses, port_low, port_high) = good_port _ c in
      let max_same = int32_small max_conns (ground arith) high in
      let min_same = int32_small min_conns low' high' in
      subst (IsRunnable parsers) (loaded_injective s cfg h4) (record {
        max_low = rw max_same low;
        max_high = rw max_same high;
        min_low = rw min_same low';
        pool = ground arith;
        database = given_text _ b;
        port_number = port;
        port_parses = parses;
        port_low = port_low;
        port_high = port_high;
        origins = env_list-NoBlank "CORS_ALLOWED_ORIGINS";
        keys = env_list-NoBlank "GEOQUERRY_API_KEYS";
        credentials = has_credentials s a;
      })

  -- A configuration that Load returns has a pool of 1 to 64 connections, of which 0 to that many
  -- are kept open, a database, a port from 1 to 65535, origins and keys that are not empty, and,
  -- if M-Pesa is on, its five credentials.
  pub load-IsRunnable : (cfg : Config) → load parsers getenv ≡ loaded cfg → IsRunnable parsers cfg
  unfolding load
  load-IsRunnable cfg h =
      let (max_conns, e, h1) = with_int-loaded "DB_MAX_CONNS" _ _ cfg h in
      let (min_conns, e', h2) = with_int-loaded "DB_MIN_CONNS" _ _ cfg h1 in
      settings-IsRunnable max_conns min_conns cfg
        (env_int_in_range-bounds "DB_MAX_CONNS" (pos 4) (pos 1) (pos 64) max_conns (omega arith)
          (omega arith) e)
        (env_int_in_range-bounds "DB_MIN_CONNS" (pos 1) (pos 0) (pos 64) min_conns (omega arith)
          (omega arith) e')
        h2
