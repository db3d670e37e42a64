-- ===== src/App/Tests.antt =====
-- Configurations of one node.
use yappa_core.Common.{
  string_eq, ◌==◌, ne_of_==, String, Bool, ◌&&◌, true, false, Option, none, some, List, [], ◌∷◌,
  ◌≡◌, refl, trim, join, arith, if◌then◌else◌,
}
use yappa_core.Common.{ℕ, parse_unsigned}
use yappa_core.Protocol.{Message}
use yappa_core.Kafka.Handle.{Settings, new, producer_settings, consumer_settings}
use yappa_core.App.Config.{AppConfig, config, configured, u16_size}
use yappa_core.App.Start.{Outside, Ran, terminate, main, run, uses_kafka, ran}
use yappa_core.App.Persistence.{Follows, Lasts, main-Follows}
use yappa_core.App.Cors.{Method, get, Cors, IsDocumented, any_wildcard, build_cors}
use yappa_core.App.Cors.Origins.{done, blank, invalid, origin, Allows, build_cors-Allows}

record Layer : Type 0 where
  origins : List String
  methods : List Method
  headers : List String

abbrev is_star : String → Bool
is_star s = s == "*"

abbrev cors : Cors
cors = record {
  HeaderValue = String;
  try_from = λ s. if s == "x" then none else some s;
  is_wildcard = is_star;
  CorsLayer = Layer;
  new = record { origins = []; methods = []; headers = [] };
  allow_origin = λ l os. if any_wildcard is_star os then none else some (record l { origins = os });
  allow_methods = λ l ms. record l { methods = ms };
  allow_headers = λ l hs. record l { headers = hs };
  origins = λ l. l.origins;
  methods = λ l. l.methods;
  headers = λ l. l.headers;
}

documented : IsDocumented cors
documented = record {
  origins-new = refl;
  wildcard-panics = λ l vs w. rw w refl;
  listed = λ l vs w. (record l { origins = vs }, rw w refl, refl);
  methods-allow_methods = λ l ms. refl;
  origins-allow_methods = λ l ms. refl;
  headers-allow_headers = λ l hs. refl;
  origins-allow_headers = λ l hs. refl;
  methods-allow_headers = λ l hs. refl;
}

build_cors-Allows_example :
    Allows cors documented " a,b ,,x" ("a" ∷ "b" ∷ []) false (build_cors cors " a,b ,,x")
unfolding trim join
build_cors-Allows_example =
    build_cors-Allows cors documented " a" ("b " ∷ "" ∷ "x" ∷ []) ("a" ∷ "b" ∷ [])
      (
        (omega arith, (omega arith, tt)),
        ((omega arith, (omega arith, tt)), (tt, ((omega arith, tt), tt))),
      )
      (origin " a" "a" (ne_of_== (trim " a") "" refl) refl (
        origin "b " "b" (ne_of_== (trim "b ") "" refl) refl
          (blank "" refl (invalid "x" (ne_of_== (trim "x") "" refl) refl done))))

-- An environment with brokers, and neither a mode nor a port.
abbrev var : String → Option String
var name =
    if name == "JWT_SECRET"
    then some "s"
    else (if name == "REDIS_URL"
        then some "r"
        else (if name == "DATABASE_URL"
            then some "d"
            else (if name == "KAFKA_BROKERS" then some "b" else none)))

-- Every library answers, and the state of a client is what it was made of.
abbrev outside : Outside
outside = record {
  Pool = List String;
  connect = λ max url. some (url ∷ []);
  execute = λ sql pool. some (sql ∷ pool);
  Client = String;
  open_client = λ url. some url;
  RedisManager = String;
  new_manager = λ url. some url;
  TenantLimiter = ℕ;
  new_limiter = λ client max. some max;
  Producer = Settings;
  create_producer = λ settings. some settings;
  Consumer = Settings;
  create_consumer = λ settings. some settings;
  jwt = record {
    Algorithm = Unit;
    hs256 = tt;
    DecodingKey = String;
    from_secret = λ s. s;
    new_validation = λ a. record {
      algorithms = a ∷ [];
      required_spec_claims = "exp" ∷ [];
      iss = none;
      aud = none;
      validate_exp = true;
      leeway = 60;
    };
    decode = λ key v now token. none;
  };
  cors = cors;
  S = List Message;
  Listener = ℕ;
  bind = λ port. some port;
  serve = λ o idle. elim o [ none ↦ none | some b ↦ some (b && idle) ];
}

parse_unsigned-port : parse_unsigned u16_size "8080" ≡ some 8080
unfolding parse_unsigned
parse_unsigned-port = refl

parse_unsigned-overflow : parse_unsigned u16_size "65536" ≡ none
unfolding parse_unsigned
parse_unsigned-overflow = refl

abbrev cfg : AppConfig
cfg = configured var "s" "r" "d" 10 8080

abbrev node : Ran outside
node =
    ran outside cfg
      ("migrations/003_create_groups.sql" ∷ "migrations/002_create_api_key.sql"
        ∷ "migrations/001_create_messages.sql" ∷ "d" ∷ [])
      ("r", 10)
      (some (record {
        producer = producer_settings "b";
        consumer = consumer_settings "b" "realtime-ws-nodes";
      }))
      (record { origins = []; methods = get ∷ []; headers = [] }) true

main-Follows_example :
    (c : AppConfig) × (config var ≡ some c)
    × (uses_kafka outside c ≡ true)
    × Follows outside c node
    × Lasts outside c (terminate ∷ []) true node
unfolding main run config parse_unsigned new build_cors
main-Follows_example = main-Follows outside (λ b idle. refl) var (terminate ∷ []) true node refl
