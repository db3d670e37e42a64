-- ===== src/Kafka/Durable.antt =====
-- What reaches the database as long as its constraints allow the rows.
use yappa_core.Common.{
  ◌<◌, ◌≡◌, refl, sym, subst, ap, ◌∙◌, Option, none, some, List, [], ◌∷◌, ◌++◌, length, arith,
  append_assoc, append-nil, leb, Bool-cases, inl, inr, map,
}
use mathlib.Core.List.{map-append}
use yappa_core.Protocol.{ServerMessage}
use yappa_core.Db.{Database}
use yappa_core.Db.Flush.{inserted}
use yappa_core.Kafka.{
  Event, shutdown, deadline, received, recv_error, Round, continue, stopped, failed, State, parse,
  step, run, batch_max_size,
}
use yappa_core.Kafka.Batch.{after_insert}
use yappa_core.Kafka.Loop.{
  Consumer, Fits, state_of, committed, pending, taken, round_of, step_lem, round_of-Fits,
}

module _ (database : Database) {Bytes Broker : Type 0} (from_slice : Bytes → Option ServerMessage)
    (commit : Broker → Option Broker) {Row : Type 0} (stored : database.Db → List Row)
    (row : ServerMessage → Row) (IsAllowed : List Row → Type 0)
    (IsAllowed-prefix : (xs ys : List Row) → IsAllowed (xs ++ ys) → IsAllowed xs)
    (accepts : (ms : List ServerMessage) (db : database.Db)
      → IsAllowed (stored db ++ map row ms)
      → (db' : database.Db) × (inserted database ms db ≡ some db')
        × (stored db' ≡ stored db ++ map row ms)) where
  open database use {Db}

  abbrev S : Type 0
  S = Consumer database from_slice commit

  -- The messages that an event brings.
  abbrev arrivals_of : Option ServerMessage → List ServerMessage
  arrivals_of none = []
  arrivals_of (some msg) = msg ∷ []

  abbrev pub arrivals : List (Event Bytes) → List ServerMessage
  arrivals [] = []
  arrivals (received payload ∷ events) =
      arrivals_of (parse database from_slice commit payload) ++ arrivals events
  arrivals (_ ∷ events) = arrivals events

  -- The rows in the database, then those in the buffer.
  abbrev pub account : S → List Row
  account s = stored s.db ++ map row s.buf

  stored-after_insert :
      (ms : List ServerMessage) (db : Db)
      → IsAllowed (stored db ++ map row ms)
      → stored (after_insert database ms db) ≡ stored db ++ map row ms
  stored-after_insert [] db ok = sym (append-nil (stored db))
  stored-after_insert (m ∷ ms) db ok =
      let (db', taken_in, e) = accepts (m ∷ ms) db ok in rw taken_in e

  account-committed :
      (next : S → Round S) (s : S) (o : Option Broker)
      → ((s' : S) → state_of database from_slice commit (next s') ≡ s')
      → IsAllowed (account s)
      → account
          (state_of database from_slice commit (committed database from_slice commit next s o))
        ≡ account s
  account-committed next s none keep ok = append-nil _ ∙ stored-after_insert s.buf s.db ok
  account-committed next s (some b) keep ok =
      rw (keep (record { buf = []; db = after_insert database s.buf s.db; broker = b }))
        (append-nil _ ∙ stored-after_insert s.buf s.db ok)

  account-pending :
      (next : S → Round S) (s : S) (buf : List ServerMessage)
      → ((s' : S) → state_of database from_slice commit (next s') ≡ s')
      → IsAllowed (account s)
      → account
          (state_of database from_slice commit (pending database from_slice commit next s buf))
        ≡ account s
  account-pending next s [] keep ok = rw (keep s)
  account-pending next s (m ∷ ms) keep ok = account-committed next s (commit s.broker) keep ok

  account-snoc :
      (s : S) (msg : ServerMessage)
      → account (record s { buf = s.buf ++ msg ∷ [] }) ≡ account s ++ row msg ∷ []
  account-snoc s msg = simp (map-append, append_assoc)

  account-taken :
      (s : S) (o : Option ServerMessage)
      → IsAllowed (account s ++ map row (arrivals_of o))
      → account (state_of database from_slice commit (taken database from_slice commit s o))
        ≡ account s ++ map row (arrivals_of o)
  account-taken s none ok = sym (append-nil _)
  account-taken s (some msg) ok =
      let s' = record s { buf = s.buf ++ msg ∷ [] } in
      elim (Bool-cases (leb batch_max_size (length s'.buf))) [
        | inl full ↦ rw full (
            account-committed continue s' (commit s.broker) (λ q. refl)
              (subst IsAllowed (sym (account-snoc s msg)) ok)
            ∙ account-snoc s msg)
        | inr room ↦ rw room (account-snoc s msg)
      ]

  -- The messages of one event.
  abbrev brought : Event Bytes → List ServerMessage
  brought e = arrivals (e ∷ [])

  account-round_of :
      (s : S) (e : Event Bytes)
      → IsAllowed (account s ++ map row (brought e))
      → account (state_of database from_slice commit (round_of database from_slice commit s e))
        ≡ account s ++ map row (brought e)
  account-round_of s shutdown ok =
      account-pending stopped s s.buf (λ q. refl) (IsAllowed-prefix _ [] ok) ∙ sym (append-nil _)
  account-round_of s deadline ok =
      account-pending continue s s.buf (λ q. refl) (IsAllowed-prefix _ [] ok) ∙ sym (append-nil _)
  account-round_of s (received payload) ok =
      let o = parse database from_slice commit payload in
      account-taken s o
        (subst (λ l. IsAllowed (account s ++ map row l)) (append-nil (arrivals_of o)) ok)
      ∙ rw (append-nil (arrivals_of o))
  account-round_of s recv_error ok = sym (append-nil _)

  arrivals-cons :
      (e : Event Bytes) (events : List (Event Bytes))
      → arrivals (e ∷ events) ≡ brought e ++ arrivals events
  arrivals-cons shutdown events = refl
  arrivals-cons deadline events = refl
  arrivals-cons (received payload) events =
      rw (append-nil (arrivals_of (parse database from_slice commit payload)))
  arrivals-cons recv_error events = refl

  -- The rows after an event and the rest, as those after the event and then those of the rest.
  rows-cons :
      (rows : List Row) (e : Event Bytes) (events : List (Event Bytes))
      → rows ++ map row (arrivals (e ∷ events))
        ≡ (rows ++ map row (brought e)) ++ map row (arrivals events)
  rows-cons rows e events = rw (arrivals-cons e events) (simp (map-append, append_assoc))

  account-run :
      (s s' : S) (events : List (Event Bytes))
      → length s.buf < batch_max_size
      → IsAllowed (account s ++ map row (arrivals events))
      → run database from_slice commit s events ≡ some (continue s')
      → (account s' ≡ account s ++ map row (arrivals events)) × (length s'.buf < batch_max_size)
  unfolding run
  account-run s s' [] h ok e = let same : s ≡ s' = cc in rw (← same) (sym (append-nil _), h)
  account-run s s' (ev ∷ events) h ok e =
      let ok' = subst IsAllowed (rows-cons (account s) ev events) ok in
      let stepped = account-round_of s ev (IsAllowed-prefix _ _ ok') in
      onward (round_of database from_slice commit s ev)
        (round_of-Fits database from_slice commit s ev h) stepped ok'
        (rw (step_lem database from_slice commit s ev h) at e) (λ q. account-run q s' events)
    where
      onward :
          (round : Round S)
          → Fits database from_slice commit round
          → account (state_of database from_slice commit round) ≡ account s ++ map row (brought ev)
          → IsAllowed ((account s ++ map row (brought ev)) ++ map row (arrivals events))
          → elim round [
            | continue q ↦ run database from_slice commit q events
            | stopped q ↦ some (stopped q)
            | failed q ↦ some (failed q)
          ]
            ≡ some (continue s')
          → ((q : S)
              → length q.buf < batch_max_size
              → IsAllowed (account q ++ map row (arrivals events))
              → run database from_slice commit q events ≡ some (continue s')
              → (account s' ≡ account q ++ map row (arrivals events))
                × (length s'.buf < batch_max_size))
          → (account s' ≡ account s ++ map row (arrivals (ev ∷ events)))
            × (length s'.buf < batch_max_size)
      onward (continue q) f a ok r rest =
          let (later, short) =
            rest q f (subst (λ l. IsAllowed (l ++ map row (arrivals events))) (sym a) ok) r in
          (later ∙ rw a (sym (rows-cons (account s) ev events)), short)
      onward (stopped q) f a ok r rest = cc
      onward (failed q) f a ok r rest = cc

-- The consumer loses nothing and repeats nothing, if the rows that there will be at the end are allowed (by the
-- table's constraints: any part of them from the front is then allowed too) and the database takes
-- every batch whose rows are allowed. Where the loop goes on through all events, so that no commit fails and no
-- shutdown is among them, and a shutdown then ends it with `Ok`, so that the last commit does not fail
-- either, the rows in the database are those that were there, then one for each message that was in the buffer
-- or arrived and could be parsed, in order.
pub run-stores-arrivals :
    (database : Database) {Bytes Broker : Type 0} (from_slice : Bytes → Option ServerMessage)
    (commit : Broker → Option Broker) {Row : Type 0} (stored : database.Db → List Row)
    (row : ServerMessage → Row) (IsAllowed : List Row → Type 0)
    (IsAllowed-prefix : (xs ys : List Row) → IsAllowed (xs ++ ys) → IsAllowed xs)
    (accepts : (ms : List ServerMessage) (db : database.Db)
      → IsAllowed (stored db ++ map row ms)
      → (db' : database.Db) × (inserted database ms db ≡ some db')
        × (stored db' ≡ stored db ++ map row ms))
    (s s' s'' : State database from_slice commit) (events : List (Event Bytes))
    → length s.buf < batch_max_size
    → IsAllowed (
        stored s.db
        ++ map row (
            s.buf
            ++ arrivals database from_slice commit stored row IsAllowed IsAllowed-prefix accepts
                events))
    → run database from_slice commit s events ≡ some (continue s')
    → step database from_slice commit s' shutdown ≡ some (stopped s'')
    → stored s''.db
      ≡ stored s.db
        ++ map row (
            s.buf
            ++ arrivals database from_slice commit stored row IsAllowed IsAllowed-prefix accepts
                events)
run-stores-arrivals database from_slice commit stored row IsAllowed IsAllowed-prefix accepts s s'
      s'' events h ok ran ended =
    let counted : account database from_slice commit stored row IsAllowed IsAllowed-prefix accepts s
          ++ map row (
              arrivals database from_slice commit stored row IsAllowed IsAllowed-prefix accepts
                events)
        ≡ stored s.db
          ++ map row (
              s.buf
              ++ arrivals database from_slice commit stored row IsAllowed IsAllowed-prefix accepts
                  events) =
      simp (map-append, append_assoc) in
    let (before, short) =
      account-run database from_slice commit stored row IsAllowed IsAllowed-prefix accepts s s'
        events h (subst IsAllowed (sym counted) ok) ran in
    let last : round_of database from_slice commit s' shutdown ≡ stopped s'' =
      ground (arith, step_lem database from_slice commit s' shutdown short) in
    let flushed =
      account-round_of database from_slice commit stored row IsAllowed IsAllowed-prefix accepts s'
        shutdown (subst IsAllowed (sym (append-nil _ ∙ before ∙ counted)) ok) in
    let empty =
      subst (Fits database from_slice commit) last
        (round_of-Fits database from_slice commit s' shutdown short) in
    sym (append-nil (stored s''.db))
    ∙ ap (λ b. stored s''.db ++ map row b) (sym empty)
    ∙ ap
        (λ r.
          stored (state_of database from_slice commit r).db
          ++ map row (state_of database from_slice commit r).buf)
        (sym last)
    ∙ flushed
    ∙ append-nil _
    ∙ before
    ∙ counted
