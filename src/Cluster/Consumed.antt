-- ===== src/Cluster/Consumed.antt =====
-- What a consumer stores of the records that the nodes have produced.
use yappa_core.Common.{
  ℕ, String, ◌≡◌, sym, ap, ◌∙◌, subst, Option, none, some, List, [], ◌∷◌, ◌++◌, map, Every, Any,
  inl, inr, arith,
}
use yappa_core.Protocol.{ServerMessage}
use yappa_core.Db.Flush.{inserted}
use yappa_core.Kafka.{
  Event, shutdown, deadline, received, recv_error, continue, stopped, State, parse, step, run,
}
use yappa_core.Kafka.Durable.{arrivals, run-stores-arrivals}
use yappa_core.Cluster.{Environment, Cluster, Reach}
use yappa_core.Cluster.Invariant.{IsIssued}
use yappa_core.Cluster.Produced.{IsReadable, StartsSilent, produced-IsReadable}

-- The messages of the events were produced.
abbrev pub payload_of : String × String × String → String
payload_of (topic, key, payload) = payload

abbrev pub WereProduced : List (String × String × String) → List (Event String) → Type 0
WereProduced produced [] = Unit
WereProduced produced (received (some payload) ∷ events) =
    Any (λ (r : String × String × String). payload_of r ≡ payload) produced
    × WereProduced produced events
WereProduced produced (_ ∷ events) = WereProduced produced events

module _ (env : Environment) (max_users : ℕ) {Broker : Type 0} (commit : Broker → Option Broker)
    {Row : Type 0} (stored : env.database.Db → List Row) (row : ServerMessage → Row)
    (IsAllowed : List Row → Type 0)
    (IsAllowed-prefix : (xs ys : List Row) → IsAllowed (xs ++ ys) → IsAllowed xs)
    (accepts : (ms : List ServerMessage) (db : env.database.Db)
      → IsAllowed (stored db ++ map row ms)
      → (db' : env.database.Db) × (inserted env.database ms db ≡ some db')
        × (stored db' ≡ stored db ++ map row ms)) where
  open env use {database, from_str}

  abbrev Issued : List ServerMessage → Type 0
  Issued = Every (IsIssued env max_users)

  read_back :
      (produced : List (String × String × String)) (payload : String)
      → Every (IsReadable env max_users) produced
      → Any (λ (r : String × String × String). payload_of r ≡ payload) produced
      → (m : ServerMessage) × (from_str payload ≡ some m) × IsIssued env max_users m
  read_back [] payload h k = absurd k
  read_back ((topic, key, p) ∷ produced) payload h (inl same) =
      let (on, m, reads, under, issued) = h.0 in (m, ap from_str (sym same) ∙ reads, issued)
  read_back (r ∷ produced) payload h (inr k) = read_back produced payload h.1 k

  arrivals-Issued :
      (produced : List (String × String × String)) (events : List (Event String))
      → Every (IsReadable env max_users) produced
      → WereProduced produced events
      → Issued
          (arrivals database from_str commit stored row IsAllowed IsAllowed-prefix accepts events)
  unfolding parse
  arrivals-Issued produced [] h k = tt
  arrivals-Issued produced (shutdown ∷ events) h k = arrivals-Issued produced events h k
  arrivals-Issued produced (deadline ∷ events) h k = arrivals-Issued produced events h k
  arrivals-Issued produced (recv_error ∷ events) h k = arrivals-Issued produced events h k
  arrivals-Issued produced (received none ∷ events) h k = arrivals-Issued produced events h k
  arrivals-Issued produced (received (some payload) ∷ events) h k =
      let (m, reads, issued) = read_back produced payload h k.0 in
      rw reads (issued, arrivals-Issued produced events h k.1)

  -- In every cluster that can come about where nothing was produced at first: a consumer with an empty buffer whose
  -- events bring produced records only, in any order and any number of times, and that is then shut down, has
  -- added just one row for each message that came in, in order, and each of these messages has the
  -- tenant and the sender of a valid token; as long as the table allows the rows, the database takes the
  -- batches that it allows, and no commit fails.
  pub consumed-IsIssued :
      {c : Cluster env max_users} (r : Reach env max_users c)
      → StartsSilent env max_users r
      → (s s' s'' : State database from_str commit) (events : List (Event String))
      → WereProduced c.produced events
      → s.buf ≡ []
      → let ms =
          arrivals database from_str commit stored row IsAllowed IsAllowed-prefix accepts events in
        IsAllowed (stored s.db ++ map row ms)
        → run database from_str commit s events ≡ some (continue s')
        → step database from_str commit s' shutdown ≡ some (stopped s'')
        → (stored s''.db ≡ stored s.db ++ map row ms) × Every (IsIssued env max_users) ms
  consumed-IsIssued {c} r silent s s' s'' events were empty ok ran ended =
      let ms =
        arrivals database from_str commit stored row IsAllowed IsAllowed-prefix accepts events in
      let same : s.buf ++ ms ≡ ms = ap (λ b. b ++ ms) empty in
      (
        run-stores-arrivals database from_str commit stored row IsAllowed IsAllowed-prefix accepts s
              s' s'' events (rw empty (omega arith))
              (subst (λ l. IsAllowed (stored s.db ++ map row l)) (sym same) ok) ran ended
            ∙ ap (λ l. stored s.db ++ map row l) same,
        arrivals-Issued c.produced events (produced-IsReadable env max_users r silent) were,
      )
