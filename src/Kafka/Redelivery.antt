-- ===== src/Kafka/Redelivery.antt =====
-- A message that Kafka delivers again, in a batch with new ones. The table's primary key is the message id
-- (migrations/001_create_messages.sql), and the INSERT has no ON CONFLICT.
use yappa_core.Common.{
  nat_eq, ==-refl, ◌+◌, ◌<◌, ◌≡◌, refl, sym, ap, ◌∙◌, subst, Uuid, true, false, Option, none, some,
  List, [], ◌∷◌, ◌++◌, length, length-append, map, contains, Every, Every-map, arith, append_assoc,
  append-nil,
}
use yappa_core.Protocol.{ServerMessage}
use yappa_core.Db.{Columns, Database}
use yappa_core.Db.Flush.{inserted}
use yappa_core.Kafka.{Event, deadline, received, continue, failed, parse, step, run, batch_max_size}
use yappa_core.Kafka.Loop.{Consumer, step_lem, step-loses-batch}

abbrev pub id_of : ServerMessage → Uuid
id_of m = m.message_id

-- The messages that payloads parse to.
abbrev pub Reads :
    {Bytes : Type 0} → (Bytes → Option ServerMessage) → List Bytes → List ServerMessage → Type 0
Reads from_slice [] [] = Unit
Reads from_slice [] (m ∷ ms) = ⊥
Reads from_slice (p ∷ payloads) [] = ⊥
Reads from_slice (p ∷ payloads) (m ∷ ms) = (from_slice p ≡ some m) × Reads from_slice payloads ms

abbrev pub arrive : {Bytes : Type 0} → List Bytes → List (Event Bytes)
arrive [] = []
arrive (p ∷ payloads) = received (some p) ∷ arrive payloads

contains-last : (id : Uuid) (ids : List Uuid) → contains id (ids ++ id ∷ []) ≡ true
contains-last id [] = rw (==-refl id) refl
contains-last id (x ∷ ids) = ground (arith, contains-last id ids)

contains-first : (id : Uuid) (ids : List Uuid) → contains id (id ∷ ids) ≡ true
contains-first id ids = rw (==-refl id) refl

contains-append_one :
    (id new : Uuid) (ids : List Uuid)
    → contains id (new ∷ ids) ≡ false
    → contains id (ids ++ new ∷ []) ≡ false
contains-append_one id new [] h = h
contains-append_one id new (x ∷ ids) h = ground (arith, contains-append_one id new ids)

module _ (database : Database) {Bytes Broker : Type 0} (from_slice : Bytes → Option ServerMessage)
    (commit : Broker → Option Broker) where
  open database use {Db}

  abbrev S : Type 0
  S = Consumer database from_slice commit

  -- A message that still fits into the buffer.
  step-buffers :
      (s : S) (p : Bytes) (m : ServerMessage)
      → from_slice p ≡ some m
      → length s.buf + 1 < batch_max_size
      → step database from_slice commit s (received (some p))
        ≡ some (continue (record s { buf = s.buf ++ m ∷ [] }))
  unfolding parse
  step-buffers s p m e h =
      step_lem database from_slice commit s (received (some p)) (omega arith)
      ∙ ground (arith, e, length-append s.buf (m ∷ []))

  run-buffers :
      (s : S) (payloads : List Bytes) (ms : List ServerMessage) (events : List (Event Bytes))
      → Reads from_slice payloads ms
      → length s.buf + length ms < batch_max_size
      → run database from_slice commit s (arrive payloads ++ events)
        ≡ run database from_slice commit (record s { buf = s.buf ++ ms }) events
  unfolding run
  run-buffers s [] [] events r h =
      ap (λ b. run database from_slice commit (record s { buf = b }) events)
        (sym (append-nil s.buf))
  run-buffers s [] (m ∷ ms) events r h = absurd r
  run-buffers s (p ∷ payloads) [] events r h = absurd r
  run-buffers s (p ∷ payloads) (m ∷ ms) events r h =
      let s' : S = record s { buf = s.buf ++ m ∷ [] } in
      rw (step-buffers s p m r.0 (omega arith), run)
        (run-buffers s' payloads ms events r.1 (omega (arith, length-append s.buf (m ∷ [])))
          ∙ ap (λ b. run database from_slice commit (record s { buf = b }) events)
              (append_assoc s.buf (m ∷ []) ms))

  -- The INSERT succeeds, and the commit does not.
  step-fails :
      (m : ServerMessage) (ms : List ServerMessage) (db db' : Db) (down : Broker)
      → length (m ∷ ms) < batch_max_size
      → inserted database (m ∷ ms) db ≡ some db'
      → commit down ≡ none
      → step database from_slice commit (record { buf = m ∷ ms; db = db; broker = down }) deadline
        ≡ some (failed (record { buf = []; db = db'; broker = down }))
  step-fails m ms db db' down short taken_in fails =
      step_lem database from_slice commit (record { buf = m ∷ ms; db = db; broker = down }) deadline
        short
      ∙ ground (arith, taken_in, fails)

-- Kafka delivers a message again whose commit has failed. Where the primary key refuses a second row of a message's
-- id, and takes the row of a new one: a consumer gets a message, stores it when the interval ends, and
-- stops since the commit fails. The next consumer gets the message again and, in the same interval, any new messages, of
-- ids that are neither stored nor the message's, that still fit into its buffer. When the
-- interval ends and the commit succeeds, its buffer is empty and the table is what it was: it has the
-- first message, and none of the new ones, whose offsets are committed.
pub run-loses-redelivered :
    (database : Database) {Bytes Broker : Type 0} (from_slice : Bytes → Option ServerMessage)
    (commit : Broker → Option Broker) (stored : database.Db → List Uuid)
    (primary_key : (c : Columns database.DateTime) (db : database.Db) (id : Uuid)
      → contains id c.ids ≡ true
      → contains id (stored db) ≡ true
      → database.insert_messages c db ≡ none)
    (takes_new : (m : ServerMessage) (db : database.Db)
      → contains (id_of m) (stored db) ≡ false
      → (db' : database.Db) × (inserted database (m ∷ []) db ≡ some db')
        × (stored db' ≡ stored db ++ id_of m ∷ []))
    (db : database.Db) (down up up' : Broker) (p : Bytes) (m : ServerMessage)
    (payloads : List Bytes) (new : List ServerMessage)
    → from_slice p ≡ some m
    → Reads from_slice payloads new
    → 1 + length new < batch_max_size
    → contains (id_of m) (stored db) ≡ false
    → Every (λ n. contains (id_of n) (id_of m ∷ stored db) ≡ false) new
    → commit down ≡ none
    → commit up ≡ some up'
    → (db' : database.Db) × (run database from_slice commit
          (record { buf = []; db = db; broker = down })
          (received (some p) ∷ deadline ∷ [])
        ≡ some (failed (record { buf = []; db = db'; broker = down })))
      × (run database from_slice commit
            (record { buf = []; db = db'; broker = up })
            (arrive (p ∷ payloads) ++ deadline ∷ [])
          ≡ some (continue (record { buf = []; db = db'; broker = up' })))
      × (contains (id_of m) (stored db') ≡ true)
      × Every (λ n. contains (id_of n) (stored db') ≡ false) new
unfolding run
run-loses-redelivered database from_slice commit stored primary_key takes_new db down up up' p m
      payloads new e reads short fresh others fails works =
    let (db', taken_in, same) = takes_new m db fresh in
    let S = Consumer database from_slice commit in
    let s₂ : S = record { buf = m ∷ new; db = db'; broker = up } in
    let there : contains (id_of m) (stored db') ≡ true =
      ap (contains (id_of m)) same ∙ contains-last (id_of m) (stored db) in
    (
      db',
      run-buffers database from_slice commit (record { buf = []; db = db; broker = down }) (p ∷ [])
            (m ∷ []) (deadline ∷ []) (e, tt) (omega arith)
          ∙ rw
              (
                step-fails database from_slice commit m [] db db' down (omega arith) taken_in fails,
                run,
              )
              refl,
      run-buffers database from_slice commit (record { buf = []; db = db'; broker = up })
            (p ∷ payloads) (m ∷ new) (deadline ∷ []) (e, reads) (omega arith)
          ∙ rw
              (
                step-loses-batch database from_slice commit s₂ m new up' (omega arith) refl
                    (primary_key _ db' (id_of m)
                      (contains-first (id_of m) (map (λ (n : ServerMessage). n.message_id) new))
                      there)
                    works,
                run,
              )
              refl,
      there,
      subst (λ ids. Every (λ n. contains (id_of n) ids ≡ false) new) (sym same)
          (Every-map (λ n. contains-append_one (id_of n) (id_of m) (stored db)) new others),
    )
