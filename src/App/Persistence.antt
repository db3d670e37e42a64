-- ===== src/App/Persistence.antt =====
-- Where a node that has started persists its messages, and whose tokens it takes.
use yappa_core.Common.{
  some-injective, ◌>>=◌, string_eq, ◌==◌, not, ◌&&◌, ◌||◌, String, Bool, true, false, Option, none,
  some, List, [], ◌∷◌, ◌≡◌, refl, sym, ◌∙◌, ap, subst, if◌then◌else◌, unwrap_or, arith,
}
use yappa_core.Auth.Config.{Jwt}
use yappa_core.Auth.Config
use yappa_core.Kafka.Handle.{Kafka}
use yappa_core.Kafka.Handle
use yappa_core.App.Cors.{build_cors}
use yappa_core.App.Config.{AppConfig, config}
use yappa_core.App.Needs.{config_lem}
use yappa_core.App.Start.{
  Outside, redis_listener, kafka_consumer, direct_persistence_loop, Ran, uses_kafka, open_kafka,
  is_some, migrated, limited, ran, run, main, Signal, to_health, to_ws, to_history, to_groups,
  shutdown_signal, served_until,
}

module _ (outside : Outside) where
  open outside use {jwt, cors, Pool, RedisManager, TenantLimiter, Producer, Consumer}

  -- The node is what a configuration asks for; `signals` says what has come in.
  pub record Follows (cfg : AppConfig) (node : Ran outside) : Type 0 where
    pub kafka : is_some outside (node.state).kafka ≡ uses_kafka outside cfg
    pub tasks :
        node.background
        ≡ redis_listener
          ∷ (if uses_kafka outside cfg
              then kafka_consumer ("messages" ∷ [])
              else direct_persistence_loop)
          ∷ []
    pub flushed : node.notified ≡ (node.served && (node.over && uses_kafka outside cfg))
    pub paths :
        node.router
        ≡ ("/health", to_health)
          ∷ ("/ws", to_ws)
          ∷ ("/api/history/{tenant_id}/{channel_type}/{channel_id}", to_history)
          ∷ ("/api/groups/{tenant_id}", to_groups)
          ∷ []
    pub tokens : (node.state).auth ≡ Config.new jwt cfg.jwt_secret cfg.jwt_issuer cfg.jwt_audience

  abbrev pub is_silent : List Signal → Bool
  is_silent [] = true
  is_silent (signal ∷ signals) = false

  -- A node whose port is bound runs until a signal has come in and no request is open; one whose port is not is
  -- over at once.
  pub record Lasts (cfg : AppConfig) (signals : List Signal) (idle : Bool) (node : Ran outside)
      : Type 0 where
    pub served : node.served ≡ is_some outside (outside.bind cfg.port)
    pub over : node.over ≡ not (node.served && (is_silent signals || not idle))

  -- axum's server with a graceful shutdown returns once the signal's future is done and no request is open.
  abbrev pub Serves : Type 0
  Serves = (b idle : Bool) → outside.serve (some b) idle ≡ some (b && idle)

  over-Lasts :
      Serves
      → (served : Bool) (signals : List Signal) (idle over : Bool)
      → (if served then outside.serve (shutdown_signal true signals) idle else some true)
        ≡ some over
      → over ≡ not (served && (is_silent signals || not idle))
  over-Lasts serves false signals idle over e = sym (some-injective _ _ e)
  over-Lasts serves true [] idle over e = sym (some-injective _ _ (sym (serves false idle) ∙ e))
  over-Lasts serves true (signal ∷ signals) false over e =
      sym (some-injective _ _ (sym (serves true false) ∙ e))
  over-Lasts serves true (signal ∷ signals) true over e =
      sym (some-injective _ _ (sym (serves true true) ∙ e))

  open_kafka-uses :
      (cfg : AppConfig) (kafka : Option (Kafka Producer Consumer))
      → open_kafka outside cfg ≡ some kafka
      → is_some outside kafka ≡ uses_kafka outside cfg
  open_kafka-uses cfg kafka h =
      by_new (uses_kafka outside cfg)
        (Handle.new outside.create_producer outside.create_consumer cfg.kafka_brokers
          "realtime-ws-nodes")
        h
    where
      by_new :
          (b : Bool) (m : Option (Kafka Producer Consumer))
          → (if b then m >>= (λ k. some (some k)) else some none) ≡ some kafka
          → is_some outside kafka ≡ b
      by_new b m e = ground arith

  ran-Follows :
      (cfg : AppConfig) (pool : Pool) (redis : RedisManager × TenantLimiter)
      (kafka : Option (Kafka Producer Consumer)) (layer : cors.CorsLayer) (over : Bool)
      → is_some outside kafka ≡ uses_kafka outside cfg
      → Follows cfg (ran outside cfg pool redis kafka layer over)
  ran-Follows cfg pool redis none layer over h = record {
    kafka = h;
    tasks = rw (sym h) refl;
    flushed = rw (sym h) refl;
    paths = refl;
    tokens = refl;
  }
  ran-Follows cfg pool redis (some k) layer over h = record {
    kafka = h;
    tasks = rw (sym h) refl;
    flushed = rw (sym h) refl;
    paths = refl;
    tokens = refl;
  }

  run-Follows :
      Serves
      → (cfg : AppConfig) (signals : List Signal) (idle : Bool) (node : Ran outside)
      → run outside cfg true signals idle ≡ some node
      → Follows cfg node × Lasts cfg signals idle node
  unfolding run
  run-Follows serves cfg signals idle node h =
      by_parts (migrated outside cfg) (limited outside cfg) (open_kafka outside cfg)
        (build_cors cors cfg.cors_origins) (served_until outside cfg true signals idle) refl refl h
    where
      by_parts :
          (a : Option Pool) (b : Option (RedisManager × TenantLimiter))
          (k : Option (Option (Kafka Producer Consumer))) (l : Option cors.CorsLayer)
          (o : Option Bool)
          → open_kafka outside cfg ≡ k
          → served_until outside cfg true signals idle ≡ o
          → (do
            pool ← a
            redis ← b
            kafka ← k
            layer ← l
            over ← o
            some (ran outside cfg pool redis kafka layer over))
            ≡ some node
          → Follows cfg node × Lasts cfg signals idle node
      by_parts none b k l o e e' h = cc
      by_parts (some pool) none k l o e e' h = cc
      by_parts (some pool) (some redis) none l o e e' h = cc
      by_parts (some pool) (some redis) (some kafka) none o e e' h = cc
      by_parts (some pool) (some redis) (some kafka) (some layer) none e e' h = cc
      by_parts (some pool) (some redis) (some kafka) (some layer) (some over) e e' h =
          subst (λ n. Follows cfg n × Lasts cfg signals idle n) (some-injective _ _ h)
            (
              ran-Follows cfg pool redis kafka layer over (open_kafka-uses cfg kafka e),
              record {
                served = refl;
                over =
                    over-Lasts serves (is_some outside (outside.bind cfg.port)) signals idle over
                      e';
              },
            )

  -- A node that starts uses Kafka exactly if the environment names brokers and sets no persistence mode but
  -- "kafka"; it then runs the consumer of the topic "messages" beside the Redis listener, and tells it to
  -- shut down once it has served and is over, and otherwise runs the empty direct loop. Its router sends /health, /ws,
  -- /api/history/{tenant_id}/{channel_type}/{channel_id} and /api/groups/{tenant_id} to their
  -- handlers. If its SIGTERM handler can be installed, and axum's server returns once the signal's future is done and
  -- no request is open, it serves until a signal has come in and no request is open, and is over at once if its
  -- port cannot be bound. The tokens it takes are those of the configured secret, issuer and audience.
  pub main-Follows :
      Serves
      → (var : String → Option String) (signals : List Signal) (idle : Bool) (node : Ran outside)
      → main outside var true signals idle ≡ some node
      → (cfg : AppConfig) × (config var ≡ some cfg)
        × (uses_kafka outside cfg ≡ (
            unwrap_or (var "PERSISTENCE_MODE") "kafka" == "kafka"
            && not (unwrap_or (var "KAFKA_BROKERS") "" == "")))
        × Follows cfg node
        × Lasts cfg signals idle node
  unfolding main
  main-Follows serves var signals idle node h = by_config (config var) refl h
    where
      by_config :
          (o : Option AppConfig)
          → config var ≡ o
          → (o >>= λ cfg. run outside cfg true signals idle) ≡ some node
          → (cfg : AppConfig) × (config var ≡ some cfg)
            × (uses_kafka outside cfg ≡ (
                unwrap_or (var "PERSISTENCE_MODE") "kafka" == "kafka"
                && not (unwrap_or (var "KAFKA_BROKERS") "" == "")))
            × Follows cfg node
            × Lasts cfg signals idle node
      by_config none e h = cc
      by_config (some cfg) e h =
          let read = ((config_lem var).1 cfg).0 e in
          let (follows, lasts) = run-Follows serves cfg signals idle node h in
          (
            cfg,
            e,
            ap (λ mode. mode == "kafka" && not (cfg.kafka_brokers == "")) read.mode
                ∙ ap
                    (λ brokers.
                      unwrap_or (var "PERSISTENCE_MODE") "kafka" == "kafka" && not (brokers == ""))
                    read.brokers,
            follows,
            lasts,
          )
