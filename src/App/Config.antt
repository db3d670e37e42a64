-- ===== src/App/Config.antt =====
-- src/main.rs: the configuration that the environment gives. `var` is `dotenv::var`, `none` for any error;
-- the result is `none` where `expect` panics.
use yappa_core.Common.{◌>>=◌, ℕ, String, Option, some, unwrap_or, parse_unsigned}

pub record AppConfig : Type 0 where
  pub jwt_secret : String
  pub jwt_issuer : String
  pub jwt_audience : String
  pub redis_url : String
  pub kafka_brokers : String
  pub database_url : String
  pub persistence_mode : String
  pub cors_origins : String
  pub max_users_per_tenant : ℕ
  pub port : ℕ

abbrev pub usize_size : ℕ
usize_size = 18446744073709551616

abbrev pub u16_size : ℕ
u16_size = 65536

abbrev pub configured : (String → Option String) → String → String → String → ℕ → ℕ → AppConfig
configured var jwt_secret redis_url database_url max_users_per_tenant port = record {
  jwt_secret = jwt_secret;
  jwt_issuer = unwrap_or (var "JWT_ISSUER") "yappa-rt";
  jwt_audience = unwrap_or (var "JWT_AUDIENCE") "realtime";
  redis_url = redis_url;
  kafka_brokers = unwrap_or (var "KAFKA_BROKERS") "";
  database_url = database_url;
  persistence_mode = unwrap_or (var "PERSISTENCE_MODE") "kafka";
  cors_origins = unwrap_or (var "CORS_ORIGINS") "";
  max_users_per_tenant = max_users_per_tenant;
  port = port;
}

unfoldable pub config : (String → Option String) → Option AppConfig
config var = do
  jwt_secret ← var "JWT_SECRET"
  redis_url ← var "REDIS_URL"
  database_url ← var "DATABASE_URL"
  max_users_per_tenant ← parse_unsigned usize_size (unwrap_or (var "MAX_USERS_PER_TENANT") "10")
  port ← parse_unsigned u16_size (unwrap_or (var "PORT") "8080")
  some (configured var jwt_secret redis_url database_url max_users_per_tenant port)
