-- ===== src/Kafka/Shutdown.antt =====
-- The consumer's task ends once it is told to.
use yappa_core.Common.{
  ◌<◌, ◌≡◌, refl, Option, some, List, [], ◌∷◌, ◌++◌, length, arith, String, Option-cases, inl, inr,
}
use yappa_core.Protocol.{ServerMessage}
use yappa_core.Db.{Database}
use yappa_core.Kafka.{Event, shutdown, Round, continue, stopped, failed, State, run, batch_max_size}
use yappa_core.Kafka.Loop.{Fits, round_of, round_of-Fits, step_lem, pending}
use yappa_core.Kafka.Handle.{Kafka, Task, unsubscribed, looped, spawn_consumer}

module _ (database : Database) {Bytes Broker : Type 0} (from_slice : Bytes → Option ServerMessage)
    (commit : Broker → Option Broker) where
  abbrev Consumer : Type 0
  Consumer = State database from_slice commit

  -- The loop has ended, and nothing is left in its buffer.
  abbrev pub HasEnded : Round Consumer → Type 0
  HasEnded (continue s) = ⊥
  HasEnded (stopped s) = s.buf ≡ []
  HasEnded (failed s) = s.buf ≡ []

  shutdown-HasEnded :
      (s : Consumer) (buf : List ServerMessage)
      → s.buf ≡ buf
      → HasEnded (pending database from_slice commit stopped s buf)
  shutdown-HasEnded s [] e = e
  shutdown-HasEnded s (m ∷ ms) e = ground arith

  abbrev Ends : Option (Round Consumer) → Type 0
  Ends o = (round : Round Consumer) × (o ≡ some round) × HasEnded round

  ended :
      (more : List (Event Bytes)) (round : Round Consumer)
      → HasEnded round
      → Ends (elim round [
        | continue s' ↦ run database from_slice commit s' more
        | stopped s' ↦ some (stopped s')
        | failed s' ↦ some (failed s')
      ])
  ended more (continue s') h = absurd h
  ended more (stopped s') h = (stopped s', refl, h)
  ended more (failed s') h = (failed s', refl, h)

  pub run-Ends :
      (s : Consumer) (events more : List (Event Bytes))
      → length s.buf < batch_max_size
      → Ends (run database from_slice commit s (events ++ shutdown ∷ more))
  unfolding run
  run-Ends s [] more h = rw (step_lem database from_slice commit s shutdown h) (
      ended more (pending database from_slice commit stopped s s.buf)
        (shutdown-HasEnded s s.buf refl))
  run-Ends s (e ∷ events) more h = rw (step_lem database from_slice commit s e h) (
      onward (round_of database from_slice commit s e)
        (round_of-Fits database from_slice commit s e h) (λ s'. run-Ends s' events more))
    where
      onward :
          (round : Round Consumer)
          → Fits database from_slice commit round
          → ((s' : Consumer)
              → length s'.buf < batch_max_size
              → Ends (run database from_slice commit s' (events ++ shutdown ∷ more)))
          → Ends (elim round [
            | continue s' ↦ run database from_slice commit s' (events ++ shutdown ∷ more)
            | stopped s' ↦ some (stopped s')
            | failed s' ↦ some (failed s')
          ])
      onward (continue s') f rest = rest s' f
      onward (stopped s') f rest = (stopped s', refl, f)
      onward (failed s') f rest = (failed s', refl, f)

  -- The task is over.
  abbrev pub IsOver : Task (State database from_slice commit) → Type 0
  IsOver unsubscribed = Unit
  IsOver (looped round) = HasEnded round

module _ (database : Database) {Bytes Producer Broker : Type 0}
    (from_slice : Bytes → Option ServerMessage) (subscribe : Broker → List String → Option Broker)
    (commit : Broker → Option Broker) where
  -- Whatever has arrived before, and whatever the database and the broker answer, the consumer's task does
  -- not panic and is over once `shutdown` has been called: it could not subscribe, or its loop has
  -- ended with an empty buffer.
  pub spawn_consumer-IsOver :
      (kafka : Kafka Producer Broker) (topics : List String) (db : database.Db)
      (events more : List (Event Bytes))
      → (task : Task (State database from_slice commit)) × (spawn_consumer database from_slice
            subscribe commit kafka topics db
            (events ++ shutdown ∷ more)
          ≡ some task)
        × IsOver database from_slice commit task
  unfolding spawn_consumer
  spawn_consumer-IsOver kafka topics db events more =
      elim (Option-cases (subscribe kafka.consumer topics)) [
        | inl refused ↦ (unsubscribed, rw (refused, spawn_consumer) refl, tt)
        | inr (broker, subscribed) ↦
            let (round, ran, over) =
              run-Ends database from_slice commit (record { buf = []; db = db; broker = broker })
                events more (omega arith) in
            (looped round, rw (subscribed, spawn_consumer) (rw (ran, spawn_consumer) refl), over)
      ]
