-- ===== src/Kafka/Tests.antt =====
-- The consumer's theorems at small batches.
use yappa_core.Common.{
  string_eq, arith, ◌≡◌, refl, String, ℕ, suc, Option, none, some, List, [], ◌∷◌, ◌++◌, map,
  if◌then◌else◌, ◌==◌,
}
use yappa_core.Sample.{ann, ledger, message_from}
use yappa_core.Protocol.{dm, ServerMessage}
use yappa_core.Db.{push}
use yappa_core.Db.Flush.{inserted}
use yappa_core.Kafka.{
  Event, shutdown, deadline, received, recv_error, Round, continue, failed, State, flush_batch,
  step, run,
}
use yappa_core.Common.Map.{get}
use yappa_core.Kafka.Handle.{Kafka, Task, new, spawn_consumer, producer_settings, consumer_settings}
use yappa_core.Kafka.Shutdown.{IsOver, spawn_consumer-IsOver}
use yappa_core.Kafka.Loop.{Fits, run-Fits}
use yappa_core.Kafka.Redelivery.{id_of, run-loses-redelivered}
use yappa_core.Common.{Uuid, nat_eq, Bool, true, false, ◌||◌, contains, eq_of_==, Every}
use yappa_core.Db.{Columns, Database}
use yappa_core.Kafka.Durable.{run-stores-arrivals}

-- A payload that is empty does not parse; the broker counts its commits.
abbrev from_slice : String → Option ServerMessage
from_slice s = if s == "" then none else some (message_from ann dm "bob" s)

abbrev commit : ℕ → Option ℕ
commit n = some (suc n)

abbrev two : List ServerMessage
two = message_from ann dm "bob" "one" ∷ message_from ann dm "bob" "two" ∷ []

abbrev idle : State ledger from_slice commit
idle = record { buf = []; db = []; broker = 0 }

abbrev events : List (Event String)
events = received (some "one") ∷ deadline ∷ received none ∷ received (some "two") ∷ recv_error ∷ []

run-Fits_example :
    (round : Round (State ledger from_slice commit)) × (run ledger from_slice commit idle events
      ≡ some round)
    × Fits ledger from_slice commit round
run-Fits_example = run-Fits ledger from_slice commit idle events (omega arith)

-- No content twice.
abbrev Different : List String → Type 0
Different [] = Unit
Different (x ∷ xs) = (contains x xs ≡ false) × Different xs

contains-prefix :
    (x : String) (xs ys : List String) → contains x (xs ++ ys) ≡ false → contains x xs ≡ false
contains-prefix x [] ys h = refl
contains-prefix x (y ∷ xs) ys h = ground (arith, contains-prefix x xs ys)

Different-prefix : (xs ys : List String) → Different (xs ++ ys) → Different xs
Different-prefix [] ys h = tt
Different-prefix (x ∷ xs) ys h = (contains-prefix x xs ys h.0, Different-prefix xs ys h.1)

abbrev content : ServerMessage → String
content m = (m.payload).text

accepts :
    (ms : List ServerMessage) (db : List String)
    → Different (db ++ map content ms)
    → (db' : List String) × (inserted ledger ms db ≡ some db') × (db' ≡ db ++ map content ms)
accepts ms db ok = (_, refl, refl)

run-stores-arrivals_example : "one" ∷ "two" ∷ [] ≡ map content two
unfolding run step flush_batch push
run-stores-arrivals_example =
    run-stores-arrivals ledger from_slice commit (λ db. db) content Different Different-prefix
      accepts idle
      (record { buf = message_from ann dm "bob" "two" ∷ []; db = "one" ∷ []; broker = 1 })
      (record { buf = []; db = "one" ∷ "two" ∷ []; broker = 2 }) events (omega arith)
      (refl, (refl, tt)) refl refl

abbrev old : ServerMessage
old = message_from ann dm "bob" "old"

-- Whether two lists have an id in common.
abbrev clash : List Uuid → List Uuid → Bool
clash [] db = false
clash (id ∷ ids) db = contains id db || clash ids db

clash-common :
    (ids db : List Uuid) (id : Uuid)
    → contains id ids ≡ true
    → contains id db ≡ true
    → clash ids db ≡ true
clash-common [] db id h k = cc
clash-common (x ∷ ids) db id h k = ground (arith, eq_of_== x id, clash-common ids db id)

-- A table of message ids, with a primary key.
abbrev keyed : Database
keyed = record {
  Db = List Uuid;
  DateTime = ℕ;
  from_timestamp = λ z. none;
  default = 0;
  insert_messages = λ c db. if clash c.ids db then none else some (db ++ c.ids);
}

keyed-primary_key :
    (c : Columns ℕ) (db : List Uuid) (id : Uuid)
    → contains id c.ids ≡ true
    → contains id db ≡ true
    → keyed.insert_messages c db ≡ none
keyed-primary_key c db id h k = rw (clash-common c.ids db id h k) refl

keyed-takes_new :
    (m : ServerMessage) (db : List Uuid)
    → contains (id_of m) db ≡ false
    → (db' : List Uuid) × (inserted keyed (m ∷ []) db ≡ some db') × (db' ≡ db ++ id_of m ∷ [])
keyed-takes_new m db h = (db ++ id_of m ∷ [], rw h refl, refl)

-- The broker's first commit fails; message 2 is new.
abbrev commit_late : ℕ → Option ℕ
commit_late n = if n == 0 then none else some (suc n)

abbrev numbered : String → Option ServerMessage
numbered s = if s == "old" then some old else some (record old { message_id = 2 })

run-loses-redelivered_example :
    (db' : List Uuid) × (run keyed numbered commit_late
        (record { buf = []; db = []; broker = 0 })
        (received (some "old") ∷ deadline ∷ [])
      ≡ some (failed (record { buf = []; db = db'; broker = 0 })))
    × (run keyed numbered commit_late
          (record { buf = []; db = db'; broker = 1 })
          (received (some "old") ∷ received (some "new") ∷ deadline ∷ [])
        ≡ some (continue (record { buf = []; db = db'; broker = 2 })))
    × (contains 1 db' ≡ true)
    × Every (λ n. contains (id_of n) db' ≡ false) (record old { message_id = 2 } ∷ [])
run-loses-redelivered_example =
    run-loses-redelivered keyed numbered commit_late (λ db. db) keyed-primary_key keyed-takes_new []
      0 1 2 "old" old ("new" ∷ []) (record old { message_id = 2 } ∷ []) refl (refl, tt)
      (omega arith) refl (refl, tt) refl refl

-- A consumer is the number of its commits; the broker knows one topic.
abbrev subscribe : ℕ → List String → Option ℕ
subscribe n topics = if contains "messages" topics then some n else none

abbrev handle : Kafka String ℕ
handle = record { producer = "broker:9092"; consumer = 0 }

new-settings :
    new (λ settings. get "bootstrap.servers" settings) (λ settings. some 0) "broker:9092" "nodes"
    ≡ some handle
unfolding new producer_settings get
new-settings = refl

-- The offsets are committed by the consumer's `commit` alone.
new-auto_commit : get "enable.auto.commit" (consumer_settings "broker:9092" "nodes") ≡ some "false"
unfolding consumer_settings get
new-auto_commit = refl

spawn_consumer-IsOver_example :
    (task : Task (State ledger from_slice commit)) × (spawn_consumer ledger from_slice subscribe
        commit handle
        ("messages" ∷ [])
        []
        (events ++ shutdown ∷ [])
      ≡ some task)
    × IsOver ledger from_slice commit task
spawn_consumer-IsOver_example =
    spawn_consumer-IsOver ledger from_slice subscribe commit handle ("messages" ∷ []) [] events []
