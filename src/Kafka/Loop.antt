-- ===== src/Kafka/Loop.antt =====
-- The consumer's loop: its bound, its totality, what reaches the database, and what a failure loses.
use yappa_core.Common.{
  ◌<◌, ◌≡◌, refl, ◌∙◌, Option, none, some, List, [], ◌∷◌, ◌++◌, length, arith, length-append, leb,
  if◌then◌else◌,
}
use yappa_core.Protocol.{ServerMessage}
use yappa_core.Db.{Database}
use yappa_core.Db.Flush.{inserted}
use yappa_core.Kafka.{
  Event, shutdown, deadline, received, recv_error, Round, continue, stopped, failed, State,
  flush_commit, flush_pending, parse, step, run, batch_max_size,
}
use yappa_core.Kafka.Batch.{after_insert, flush_batch_lem}

module _ (database : Database) {Bytes Broker : Type 0} (from_slice : Bytes → Option ServerMessage)
    (commit : Broker → Option Broker) where
  open database use {Db}

  abbrev pub Consumer : Type 0
  Consumer = State database from_slice commit

  -- The buffer is short enough for the batcher, and empty once the loop has ended.
  abbrev pub Fits : Round Consumer → Type 0
  Fits (continue s) = length s.buf < batch_max_size
  Fits (stopped s) = s.buf ≡ []
  Fits (failed s) = s.buf ≡ []

  abbrev pub state_of : Round Consumer → Consumer
  state_of (continue s) = s
  state_of (stopped s) = s
  state_of (failed s) = s

  -- After a flush and a commit.
  abbrev pub committed : (Consumer → Round Consumer) → Consumer → Option Broker → Round Consumer
  committed next s none = failed (record s { buf = []; db = after_insert database s.buf s.db })
  committed next s (some broker') =
      next (record { buf = []; db = after_insert database s.buf s.db; broker = broker' })

  flush_commit_lem :
      (next : Consumer → Round Consumer) (s : Consumer)
      → length s.buf < 1000
      → flush_commit database from_slice commit next s ≡ some (committed next s (commit s.broker))
  unfolding flush_commit
  flush_commit_lem next s h = ground (arith, flush_batch_lem database s.buf s.db h)

  -- A round in one equation.
  abbrev pub pending : (Consumer → Round Consumer) → Consumer → List ServerMessage → Round Consumer
  pending next s [] = next s
  pending next s (_ ∷ _) = committed next s (commit s.broker)

  abbrev pub taken : Consumer → Option ServerMessage → Round Consumer
  taken s none = continue s
  taken s (some msg) =
      let s' = record s { buf = s.buf ++ msg ∷ [] } in
      if leb batch_max_size (length s'.buf)
      then committed continue s' (commit s.broker)
      else continue s'

  abbrev pub round_of : Consumer → Event Bytes → Round Consumer
  round_of s shutdown = pending stopped s s.buf
  round_of s deadline = pending continue s s.buf
  round_of s (received payload) = taken s (parse database from_slice commit payload)
  round_of s recv_error = continue s

  flush_pending_lem :
      (next : Consumer → Round Consumer) (s : Consumer) (buf : List ServerMessage)
      → s.buf ≡ buf
      → length s.buf < 1000
      → flush_pending database from_slice commit next s ≡ some (pending next s buf)
  unfolding flush_pending
  flush_pending_lem next s [] e h = ground arith
  flush_pending_lem next s (m ∷ ms) e h = ground (arith, flush_commit_lem next s h)

  taken_lem :
      (s : Consumer) (o : Option ServerMessage) (payload : Option Bytes)
      → parse database from_slice commit payload ≡ o
      → length s.buf < batch_max_size
      → step database from_slice commit s (received payload) ≡ some (taken s o)
  unfolding step
  taken_lem s none payload e h = rw (e, step) refl
  taken_lem s (some msg) payload e h =
      let s' = record s { buf = s.buf ++ msg ∷ [] } in
      rw (e, step) (ground (arith, length-append s.buf (msg ∷ []), flush_commit_lem continue s'))

  pub step_lem :
      (s : Consumer) (e : Event Bytes)
      → length s.buf < batch_max_size
      → step database from_slice commit s e ≡ some (round_of s e)
  unfolding step
  step_lem s shutdown h = flush_pending_lem stopped s s.buf refl (omega arith)
  step_lem s deadline h = flush_pending_lem continue s s.buf refl (omega arith)
  step_lem s (received payload) h = taken_lem s _ payload refl h
  step_lem s recv_error h = refl

  pending-Fits-stopped :
      (s : Consumer) (buf : List ServerMessage) → s.buf ≡ buf → Fits (pending stopped s buf)
  pending-Fits-stopped s [] e = e
  pending-Fits-stopped s (m ∷ ms) e = ground arith

  pending-Fits-continue :
      (s : Consumer) (buf : List ServerMessage)
      → length s.buf < batch_max_size
      → Fits (pending continue s buf)
  pending-Fits-continue s [] h = h
  pending-Fits-continue s (m ∷ ms) h = ground arith

  taken-Fits :
      (s : Consumer) (o : Option ServerMessage) → length s.buf < batch_max_size → Fits (taken s o)
  taken-Fits s none h = h
  taken-Fits s (some msg) h = ground (arith, length-append s.buf (msg ∷ []))

  pub round_of-Fits :
      (s : Consumer) (e : Event Bytes) → length s.buf < batch_max_size → Fits (round_of s e)
  round_of-Fits s shutdown h = pending-Fits-stopped s s.buf refl
  round_of-Fits s deadline h = pending-Fits-continue s s.buf h
  round_of-Fits s (received payload) h = taken-Fits s (parse database from_slice commit payload) h
  round_of-Fits s recv_error h = h

  -- From a buffer below 500 messages the loop never panics, whatever arrives and whatever the
  -- database and the broker answer: as long as it goes on the buffer stays below 500, and when it
  -- ends, by the shutdown or by a failed commit, the buffer is empty.
  pub run-Fits :
      (s : Consumer) (events : List (Event Bytes))
      → length s.buf < batch_max_size
      → (round : Round Consumer) × (run database from_slice commit s events ≡ some round)
        × Fits round
  unfolding run
  run-Fits s [] h = (continue s, refl, h)
  run-Fits s (e ∷ events) h =
      rw (step_lem s e h) (onward (round_of s e) (round_of-Fits s e h) (λ s'. run-Fits s' events))
    where
      onward :
          (round : Round Consumer)
          → Fits round
          → ((s' : Consumer)
              → length s'.buf < batch_max_size
              → (end : Round Consumer) × (run database from_slice commit s' events ≡ some end)
                × Fits end)
          → (end : Round Consumer) × (elim round [
            | continue s' ↦ run database from_slice commit s' events
            | stopped s' ↦ some (stopped s')
            | failed s' ↦ some (failed s')
          ]
              ≡ some end)
            × Fits end
      onward (continue s') f rest = rest s' f
      onward (stopped s') f rest = (stopped s', refl, f)
      onward (failed s') f rest = (failed s', refl, f)

  -- When the INSERT of a batch fails, the consumer drops the batch all the same: after the interval it
  -- commits the offsets of the messages, and they are neither in the buffer nor in the database.
  pub step-loses-batch :
      (s : Consumer) (m : ServerMessage) (ms : List ServerMessage) (broker' : Broker)
      → length s.buf < batch_max_size
      → s.buf ≡ m ∷ ms
      → inserted database s.buf s.db ≡ none
      → commit s.broker ≡ some broker'
      → step database from_slice commit s deadline
        ≡ some (continue (record { buf = []; db = s.db; broker = broker' }))
  step-loses-batch s m ms broker' h full fails ok =
      step_lem s deadline h ∙ ground (arith, full, fails, ok)
