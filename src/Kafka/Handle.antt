-- ===== src/Kafka/Handle.antt =====
-- src/kafka/mod.rs and src/kafka/producer.rs: the handle on the producer and the consumer, and the start of
-- the consumer's task (`KafkaConsumer::new` and `run` of src/kafka/consumer.rs).
--
-- rdkafka's clients are parameters: `create_producer` and `create_consumer` make one from its settings,
-- `none` for an error; `deliver` is `FutureProducer::send`; `subscribe` and `commit` change the consumer.
-- `shutdown()` stores a permit that the next round takes, since the `select!` is biased: it is
-- the event `shutdown` of that round.
use yappa_core.Common.{◌>>=◌, ℕ, String, Option, none, some, List, [], ◌∷◌}
use yappa_core.Protocol.{ServerMessage}
use yappa_core.Db.{Database}
use yappa_core.Kafka.{Event, Round, State, run}

-- The calls of `set`, in order.
abbrev pub Settings : Type 0
Settings = List (String × String)

unfoldable pub producer_settings : String → Settings
producer_settings brokers =
    ("bootstrap.servers", brokers)
    ∷ ("message.timeout.ms", "5000")
    ∷ ("queue.buffering.max.messages", "100000")
    ∷ ("queue.buffering.max.kbytes", "1048576")
    ∷ ("batch.num.messages", "10000")
    ∷ ("linger.ms", "5")
    ∷ ("enable.idempotence", "true")
    ∷ ("compression.type", "lz4")
    ∷ ("acks", "all")
    ∷ []

unfoldable pub consumer_settings : String → String → Settings
consumer_settings brokers group_id =
    ("bootstrap.servers", brokers)
    ∷ ("group.id", group_id)
    ∷ ("enable.partition.eof", "false")
    ∷ ("session.timeout.ms", "6000")
    ∷ ("enable.auto.commit", "false")
    ∷ ("auto.offset.reset", "earliest")
    ∷ ("fetch.min.bytes", "1")
    ∷ ("fetch.wait.max.ms", "100")
    ∷ ("max.poll.interval.ms", "300000")
    ∷ []

pub record FutureRecord (Bytes : Type 0) : Type 0 where
  pub topic : String
  pub key : String
  pub payload : Bytes

-- What `FutureProducer::send` gives: where the record went, or the error and the record.
pub data Delivery (Bytes Error : Type 0) : Type 0 where
  delivered : ℕ → ℕ → Delivery Bytes Error
  undelivered : Error → FutureRecord Bytes → Delivery Bytes Error

pub data Produced (Error : Type 0) : Type 0 where
  ok : Produced Error
  err : Error → Produced Error

abbrev outcome : {Bytes Error : Type 0} → Delivery Bytes Error → Produced Error
outcome (delivered partition offset) = ok
outcome (undelivered e record') = err e

pub record Kafka (Producer Consumer : Type 0) : Type 0 where
  pub producer : Producer
  pub consumer : Consumer

module _ {Producer Consumer : Type 0} where
  unfoldable pub new :
      (Settings → Option Producer)
      → (Settings → Option Consumer)
      → String
      → String
      → Option (Kafka Producer Consumer)
  new create_producer create_consumer brokers consumer_group = do
    producer ← create_producer (producer_settings brokers)
    consumer ← create_consumer (consumer_settings brokers consumer_group)
    some (record { producer = producer; consumer = consumer })

  -- `Kafka::produce` and `KafkaProducer::send`, with the five seconds in milliseconds.
  unfoldable pub produce :
      {Bytes Error : Type 0}
      → (Producer → FutureRecord Bytes → ℕ → Delivery Bytes Error)
      → Kafka Producer Consumer
      → String
      → String
      → Bytes
      → Produced Error
  produce deliver kafka topic key payload =
      outcome (deliver kafka.producer (record { topic = topic; key = key; payload = payload }) 5000)

-- How the consumer's task stands: `run` has failed to subscribe, or it is in its loop or at its end.
pub data Task (S : Type 0) : Type 0 where
  unsubscribed : Task S
  looped : Round S → Task S

module _ (database : Database) {Bytes Producer Consumer : Type 0}
    (from_slice : Bytes → Option ServerMessage)
    (subscribe : Consumer → List String → Option Consumer)
    (commit : Consumer → Option Consumer) where
  open database use {Db}

  -- `none` is a panic.
  unfoldable pub spawn_consumer :
      Kafka Producer Consumer
      → List String
      → Db
      → List (Event Bytes)
      → Option (Task (State database from_slice commit))
  spawn_consumer kafka topics db events = elim (subscribe kafka.consumer topics) [
    | none ↦ some unsubscribed
    | some consumer ↦ do
      round ←
          run database from_slice commit (record { buf = []; db = db; broker = consumer }) events
      some (looped round)
  ]
