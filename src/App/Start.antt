-- ===== src/App/Start.antt =====
-- src/app.rs, `run`: what a node is made of, which tasks it spawns, and how it ends.
--
-- `Outside` holds the libraries: sqlx's pool and the execution of a migration, by its file, the Redis
-- clients, rdkafka, jsonwebtoken, tower-http, and `bind` and `serve` of the HTTP server. `none` is an error,
-- where the code panics by `expect` or, for the CORS layer, in the library. `serve` says whether axum's server is
-- over, by whether the future that it is given for the shutdown is done, `none` where that has panicked, and by
-- whether it is idle, with no request open.
use yappa_core.Common.{
  ◌>>=◌, string_eq, ◌==◌, not, ◌&&◌, ℕ, String, Bool, true, false, Option, none, some, List, [],
  ◌∷◌, if◌then◌else◌,
}
use yappa_core.Connection.{ConnectionRegistry, empty}
use yappa_core.Auth.Config.{Jwt, Auth}
use yappa_core.Auth.Config
use yappa_core.Kafka.Handle.{Kafka, Settings}
use yappa_core.Kafka.Handle
use yappa_core.App.Cors.{Cors, build_cors}
use yappa_core.App.Config.{AppConfig, config}

pub record Outside : Type 1 where
  pub Pool : Type 0
  pub connect : ℕ → String → Option Pool
  pub execute : String → Pool → Option Pool
  pub Client : Type 0
  pub open_client : String → Option Client
  pub RedisManager : Type 0
  pub new_manager : String → Option RedisManager
  pub TenantLimiter : Type 0
  pub new_limiter : Client → ℕ → Option TenantLimiter
  pub Producer : Type 0
  pub create_producer : Settings → Option Producer
  pub Consumer : Type 0
  pub create_consumer : Settings → Option Consumer
  pub jwt : Jwt
  pub cors : Cors
  pub S : Type 0
  pub Listener : Type 0
  pub bind : ℕ → Option Listener
  pub serve : Option Bool → Bool → Option Bool

-- What the consumer subscribes to.
abbrev pub topics : List String
topics = "messages" ∷ []

-- The handlers of the router's paths, all for GET: `health`, `ws_handler`, `get_channel_history` and
-- `get_tenant_groups`.
pub data Handler : Type 0 where
  to_health to_ws to_history to_groups : Handler

abbrev pub routes : List (String × Handler)
routes =
    ("/health", to_health)
    ∷ ("/ws", to_ws)
    ∷ ("/api/history/{tenant_id}/{channel_type}/{channel_id}", to_history)
    ∷ ("/api/groups/{tenant_id}", to_groups)
    ∷ []

-- What has come in by `ctrl_c` and the SIGTERM handler.
pub data Signal : Type 0 where
  interrupt terminate : Signal

-- Whether the future is done, where `installed` tells whether the SIGTERM handler could be installed; `none` is
-- the panic where it could not.
abbrev pub shutdown_signal : Bool → List Signal → Option Bool
shutdown_signal installed signals =
    if installed then some (elim signals [ [] ↦ false | _ ∷ _ ↦ true ]) else none

-- The tasks that run beside the server.
pub data Background : Type 0 where
  redis_listener : Background
  kafka_consumer : List String → Background
  direct_persistence_loop : Background

module _ (outside : Outside) where
  open outside use {
    Pool, connect, execute, Client, open_client, RedisManager, new_manager, TenantLimiter,
    new_limiter, Producer, create_producer, Consumer, create_consumer, jwt, cors, S, Listener, bind,
    serve,
  }

  pub record AppState : Type 0 where
    pub auth : Auth jwt
    pub registry : ConnectionRegistry S
    pub kafka : Option (Kafka Producer Consumer)
    pub pubsub : RedisManager
    pub limiter : TenantLimiter
    pub db_pool : Pool

  -- How far a node has come: `served` says whether its port could be bound, `over` whether `run` has returned, and
  -- `notified` whether it has called `shutdown` of Kafka.
  pub record Ran : Type 0 where
    pub state : AppState
    pub background : List Background
    pub router : List (String × Handler)
    pub layer : cors.CorsLayer
    pub served : Bool
    pub over : Bool
    pub notified : Bool

  abbrev pub uses_kafka : AppConfig → Bool
  uses_kafka cfg = cfg.persistence_mode == "kafka" && not (cfg.kafka_brokers == "")

  abbrev pub open_kafka : AppConfig → Option (Option (Kafka Producer Consumer))
  open_kafka cfg =
      if uses_kafka cfg
      then (do
        k ← Handle.new create_producer create_consumer cfg.kafka_brokers "realtime-ws-nodes"
        some (some k))
      else some none

  abbrev pub spawned : Option (Kafka Producer Consumer) → List Background
  spawned none = redis_listener ∷ direct_persistence_loop ∷ []
  spawned (some k) = redis_listener ∷ kafka_consumer topics ∷ []

  abbrev pub is_some : {A : Type 0} → Option A → Bool
  is_some none = false
  is_some (some a) = true

  -- The pool, with the migrations run.
  abbrev pub migrated : AppConfig → Option Pool
  migrated cfg = do
    pool ← connect 5 cfg.database_url
    messages ← execute "migrations/001_create_messages.sql" pool
    api_keys ← execute "migrations/002_create_api_key.sql" messages
    execute "migrations/003_create_groups.sql" api_keys

  abbrev pub limited : AppConfig → Option (RedisManager × TenantLimiter)
  limited cfg = do
    redis_client ← open_client cfg.redis_url
    redis_manager ← new_manager cfg.redis_url
    limiter ← new_limiter redis_client cfg.max_users_per_tenant
    some (redis_manager, limiter)

  abbrev pub ran :
      AppConfig
      → Pool
      → RedisManager × TenantLimiter
      → Option (Kafka Producer Consumer)
      → cors.CorsLayer
      → Bool
      → Ran
  ran cfg pool redis kafka layer over =
      let served = is_some (bind cfg.port) in
      record {
        state = record {
          auth = Config.new jwt cfg.jwt_secret cfg.jwt_issuer cfg.jwt_audience;
          registry = empty;
          kafka = kafka;
          pubsub = redis.0;
          limiter = redis.1;
          db_pool = pool;
        };
        background = spawned kafka;
        router = routes;
        layer = layer;
        served = served;
        over = over;
        notified = served && (over && is_some kafka);
      }

  -- A port that cannot be bound ends `run` at once; otherwise the server is given `shutdown_signal`.
  abbrev pub served_until : AppConfig → Bool → List Signal → Bool → Option Bool
  served_until cfg installed signals idle =
      if is_some (bind cfg.port) then serve (shutdown_signal installed signals) idle else some true

  unfoldable pub run : AppConfig → Bool → List Signal → Bool → Option Ran
  run cfg installed signals idle = do
    pool ← migrated cfg
    redis ← limited cfg
    kafka ← open_kafka cfg
    layer ← build_cors cors cfg.cors_origins
    over ← served_until cfg installed signals idle
    some (ran cfg pool redis kafka layer over)

  unfoldable pub main : (String → Option String) → Bool → List Signal → Bool → Option Ran
  main var installed signals idle = do cfg ← config var; run cfg installed signals idle
