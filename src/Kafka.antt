-- ===== src/Kafka.antt =====
-- src/kafka/consumer.rs: the consumer that batches messages from Kafka into the database.
--
-- The broker is a parameter: its state, and `commit_consumer_state`, `none` for an error. An `Event` is
-- the arm that `select!` takes, with what `recv` gives. `from_slice` is serde's. A panic of the
-- batcher is `none`.
pub mod Batch
pub mod Loop
pub mod Durable
pub mod Redelivery
pub mod Handle
pub mod Shutdown
mod Tests
use yappa_core.Common.{
  ◌>>=◌, ℕ, Bool, true, false, Option, none, some, List, [], ◌∷◌, ◌++◌, leb, length, if◌then◌else◌,
}
use yappa_core.Protocol.{ServerMessage}
use yappa_core.Db.{Database, MessageBatcher, new, push, flush}

abbrev pub batch_max_size : ℕ
batch_max_size = 500

-- `recv` gives a message, whose payload may be missing, or an error.
pub data Event (Bytes : Type 0) : Type 0 where
  shutdown : Event Bytes
  deadline : Event Bytes
  received : Option Bytes → Event Bytes
  recv_error : Event Bytes

-- Where a round of the loop leads: on, to `Ok(())`, or out by the `?` after a failed commit.
pub data Round (S : Type 0) : Type 0 where
  continue : S → Round S
  stopped : S → Round S
  failed : S → Round S

module _ (database : Database) where
  open database use {Db}

  push_all : MessageBatcher → List ServerMessage → Db → Option (MessageBatcher × Db)
  push_all b [] db = some (b, db)
  push_all b (msg ∷ batch) db = do (b', db') ← push database b msg db; push_all b' batch db'

  -- The batcher is dropped at the end, and the batch is left empty.
  unfoldable pub flush_batch : List ServerMessage → Db → Option Db
  unfolding push_all
  flush_batch batch db = do
    (b, db') ← push_all new batch db
    (_, db'') ← flush database b db'
    some db''

  module _ {Bytes Broker : Type 0} (from_slice : Bytes → Option ServerMessage)
      (commit : Broker → Option Broker) where
    pub record State : Type 0 where
      pub buf : List ServerMessage
      pub db : Db
      pub broker : Broker

    -- `flush_batch` and `commit()?`; then on to what follows.
    flush_commit : (State → Round State) → State → Option (Round State)
    flush_commit next s = do
      db' ← flush_batch s.buf s.db
      some (elim (commit s.broker) [
        | none ↦ failed (record s { buf = []; db = db' })
        | some broker' ↦ next (record { buf = []; db = db'; broker = broker' })
      ])

    -- The same where there is something to flush.
    flush_pending : (State → Round State) → State → Option (Round State)
    flush_pending next s = elim s.buf [ [] ↦ some (next s) | _ ∷ _ ↦ flush_commit next s ]

    take_in : State → ServerMessage → Option (Round State)
    take_in s msg =
        let s' = record s { buf = s.buf ++ msg ∷ [] } in
        if leb batch_max_size (length s'.buf) then flush_commit continue s' else some (continue s')

    unfoldable pub parse : Option Bytes → Option ServerMessage
    parse none = none
    parse (some payload) = from_slice payload

    unfoldable pub step : State → Event Bytes → Option (Round State)
    unfolding flush_commit flush_pending take_in parse
    step s shutdown = flush_pending stopped s
    step s deadline = flush_pending continue s
    step s (received payload) = elim (parse payload) [
      | none ↦ some (continue s)
      | some msg ↦ take_in s msg
    ]
    step s recv_error = some (continue s)

    unfoldable pub run : State → List (Event Bytes) → Option (Round State)
    run s [] = some (continue s)
    run s (e ∷ events) =
        let rest = λ (s' : State). run s' events in
        step s e >>= λ round. elim round [
          | continue s' ↦ rest s'
          | stopped s' ↦ some (stopped s')
          | failed s' ↦ some (failed s')
        ]
