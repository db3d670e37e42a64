-- ===== src/App/Needs.antt =====
-- What the environment must give for a configuration, and the bounds of its numbers.
use yappa_core.Common.{
  chain5-some, chain5-none, none-of-chain5, ℕ, ◌<◌, String, Option, none, some, ◌≡◌, refl, sym, ap,
  subst, ◌⊎◌, ◌↔◌, unwrap_or, parse_unsigned, parse_unsigned-bound, arith,
}
use yappa_core.App.Config.{AppConfig, config, configured, usize_size, u16_size}

-- A variable with no default is not set, or a number is not one of its width.
abbrev pub IsLacking : (String → Option String) → Type 0
IsLacking var =
    (var "JWT_SECRET" ≡ none)
    ⊎ (var "REDIS_URL" ≡ none)
    ⊎ (var "DATABASE_URL" ≡ none)
    ⊎ (parse_unsigned usize_size (unwrap_or (var "MAX_USERS_PER_TENANT") "10") ≡ none)
    ⊎ (parse_unsigned u16_size (unwrap_or (var "PORT") "8080") ≡ none)

abbrev users : (String → Option String) → Option ℕ
users var = parse_unsigned usize_size (unwrap_or (var "MAX_USERS_PER_TENANT") "10")

abbrev port_of : (String → Option String) → Option ℕ
port_of var = parse_unsigned u16_size (unwrap_or (var "PORT") "8080")

-- A configuration and the variables that it is read from, with the numbers in the bounds of their types.
pub record IsReadFrom (var : String → Option String) (cfg : AppConfig) : Type 0 where
  pub secret : var "JWT_SECRET" ≡ some cfg.jwt_secret
  pub redis : var "REDIS_URL" ≡ some cfg.redis_url
  pub database : var "DATABASE_URL" ≡ some cfg.database_url
  pub max_users : users var ≡ some cfg.max_users_per_tenant
  pub port_number : port_of var ≡ some cfg.port
  pub max_users_bound : cfg.max_users_per_tenant < usize_size
  pub port_bound : cfg.port < u16_size
  pub issuer : cfg.jwt_issuer ≡ unwrap_or (var "JWT_ISSUER") "yappa-rt"
  pub audience : cfg.jwt_audience ≡ unwrap_or (var "JWT_AUDIENCE") "realtime"
  pub brokers : cfg.kafka_brokers ≡ unwrap_or (var "KAFKA_BROKERS") ""
  pub mode : cfg.persistence_mode ≡ unwrap_or (var "PERSISTENCE_MODE") "kafka"
  pub origins : cfg.cors_origins ≡ unwrap_or (var "CORS_ORIGINS") ""

module _ (var : String → Option String) where
  read-IsReadFrom :
      (s r d : String) (n p : ℕ) (cfg : AppConfig)
      → var "JWT_SECRET" ≡ some s
      → var "REDIS_URL" ≡ some r
      → var "DATABASE_URL" ≡ some d
      → users var ≡ some n
      → port_of var ≡ some p
      → configured var s r d n p ≡ cfg
      → IsReadFrom var cfg
  read-IsReadFrom s r d n p cfg es er ed en ep e = subst (IsReadFrom var) e (record {
    secret = es;
    redis = er;
    database = ed;
    max_users = en;
    port_number = ep;
    max_users_bound = parse_unsigned-bound usize_size _ n (omega arith) en;
    port_bound = parse_unsigned-bound u16_size _ p (omega arith) ep;
    issuer = refl;
    audience = refl;
    brokers = refl;
    mode = refl;
    origins = refl;
  })

  config-IsReadFrom : (cfg : AppConfig) → config var ≡ some cfg → IsReadFrom var cfg
  unfolding config
  config-IsReadFrom cfg h =
      let (s, r, d, n, p, es, er, ed, en, ep, e) =
        chain5-some (configured var) (var "JWT_SECRET") (var "REDIS_URL") (var "DATABASE_URL")
          (users var) (port_of var) cfg h in
      read-IsReadFrom s r d n p cfg es er ed en ep e

  -- Only one configuration is read from the variables.
  IsReadFrom-config : (cfg : AppConfig) → IsReadFrom var cfg → config var ≡ some cfg
  unfolding config
  IsReadFrom-config cfg h =
      rw (h.secret, h.redis, h.database, h.max_users, h.port_number, config)
        (ap some (λ j. record {
          jwt_secret = cfg.jwt_secret;
          jwt_issuer = sym h.issuer j;
          jwt_audience = sym h.audience j;
          redis_url = cfg.redis_url;
          kafka_brokers = sym h.brokers j;
          database_url = cfg.database_url;
          persistence_mode = sym h.mode j;
          cors_origins = sym h.origins j;
          max_users_per_tenant = cfg.max_users_per_tenant;
          port = cfg.port;
        }))

pub config_lem :
    (var : String → Option String)
    → ((config var ≡ none) ↔ IsLacking var)
      × ((cfg : AppConfig) → (config var ≡ some cfg) ↔ IsReadFrom var cfg)
unfolding config
config_lem var = (
  (
    none-of-chain5 (configured var) (var "JWT_SECRET") (var "REDIS_URL") (var "DATABASE_URL")
        (users var) (port_of var),
    chain5-none (configured var) (var "JWT_SECRET") (var "REDIS_URL") (var "DATABASE_URL")
        (users var) (port_of var),
  ),
  λ cfg. (config-IsReadFrom var cfg, IsReadFrom-config var cfg),
)
