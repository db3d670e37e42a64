-- ===== src/Cluster/Tests.antt =====
-- A cluster in which ann connects to node 0, writes to herself, and the node hears it.
use yappa_core.Common.{
  nat_eq, string_eq, String, ◌≡◌, inl, inr, refl, Bool, true, false, Option, none, some, List, [],
  ◌∷◌, ◌==◌, strip_prefix, Every, Any, Bool-cases, arith,
}
use mathlib.Core.List.{Memᴰ}
use yappa_core.Protocol.{ServerMessage, text, generate_dm_conversation_id}
use yappa_core.Sample.{ann, ledger, draws, queue_send}
use yappa_core.Common.Map.{get, insert, remove, is_empty}
use yappa_core.Connection.{register, remove_connection, send_msg_to_user, join_group}
use yappa_core.Limits.Sample.{server}
use yappa_core.Ws.Socket.{frame}
use yappa_core.Ws.{persist_message}
use yappa_core.Redis.{publish, receive, route}
use yappa_core.Db.{push}
use yappa_core.Ws.Upgrade.{ws_handler, token_of}
use yappa_core.Limits.{acquire, refc_key, online_key}
use yappa_core.Cluster.{
  Cluster, accepts, registers, joins_general, takes, lingers, resumes, removes, drops, releases,
  hears, Reach, start, later,
}
use yappa_core.Ws.Program.{answered, lost, turn_program, text_program, resume}
use yappa_core.Cluster.Invariant.{IsPermitted, IsAuthentic, IsSocketOf}
use yappa_core.Common.{Lacks, ◌≤◌, subst, length}
use yappa_core.Auth.{Identity, ok, err, invalid_token, validate_jwt}
use yappa_core.Limits.Users.{Tracks}
use yappa_core.Limits.Open.{open_of}
use yappa_core.Cluster.Cap.{ArePlain, places_in, sockets-Counts}
use yappa_core.Cluster.Produced.{IsReadable, produced-IsReadable}
use yappa_core.Cluster.Safety.{queued-IsPermitted, held-IsSocketOf}
use yappa_core.Cluster.Sample.{hello, env, quiet}
use yappa_core.Kafka.{received, run, step, flush_batch, parse}
use yappa_core.Db.Flush.{inserted}
use yappa_core.Ws.Socket.Send.{Write, send_task}
use yappa_core.Cluster.Consumed.{consumed-IsIssued}
use yappa_core.Cluster.Drained.{released-IsEmpty}
use yappa_core.Connection.Contents.{is_held}
use yappa_core.Cluster.Invariant.{IsIssued}
use yappa_core.Common.{map, ℕ, ◌++◌}

-- A cluster with the way to it.
record Run : Type 0 where
  last : Cluster env 1
  reach : Reach env 1 last

abbrev first : Bool → Run
first kafka = record {
  last = record quiet { kafka = λ n. kafka };
  reach = start (record quiet { kafka = λ n. kafka }) (λ n. refl) refl refl;
}

connected : Bool → Run
unfolding ws_handler token_of strip_prefix acquire refc_key online_key
connected kafka = record {
  last = _;
  reach =
      later
        (later (later (first kafka).reach (accepts 0 (some "Bearer ann1") none true ann _ refl))
          (registers [] [] 0 ann 1 [] refl refl))
        (joins_general [] [] 0 ann 1 0 refl);
}

taken : Bool → Run
unfolding connected turn_program text_program generate_dm_conversation_id
taken kafka = record {
  last = _;
  reach =
      later (connected kafka).reach
        (takes [] [] 0 ann 1 0 5 (frame 5 draws (text "dm")) _ refl refl);
}

-- Both publishes.
said : Bool → Run
unfolding connected taken turn_program text_program generate_dm_conversation_id resume publish
said kafka = record {
  last = _;
  reach =
      later (later (taken kafka).reach (resumes [] [] _ answered _ _ refl refl))
        (resumes [] [] _ answered _ _ refl refl);
}

-- The node hears the message before it is persisted.
heard : Run
unfolding connected taken said turn_program text_program generate_dm_conversation_id resume publish
heard = record {
  last = _;
  reach = later (said false).reach (hears 0 "user:acme:ann" "hello" (Memᴰ.head refl));
}

queued-IsPermitted_example :
    Every (IsPermitted env 1 "acme") (text "hello" ∷ [])
    × ((writes : List Write)
        → Every (IsPermitted env 1 "acme") (send_task (text "hello" ∷ []) writes).0)
unfolding connected taken said heard get receive route send_msg_to_user join_group register insert
    is_empty
queued-IsPermitted_example =
    queued-IsPermitted env 1 heard.reach 0 "acme" "ann" 1 (text "hello" ∷ []) refl

held-IsSocketOf_example :
    Any (λ x. IsSocketOf env 1 0 "acme" "ann" 1 x × IsAuthentic env 1 x.identity) heard.last.sockets
unfolding connected taken said heard get receive route send_msg_to_user join_group register insert
    is_empty
held-IsSocketOf_example = held-IsSocketOf env 1 heard.reach 0 "acme" "ann" 1 refl

acme-plain : Lacks b'}' "acme"
acme-plain = (omega arith, (omega arith, (omega arith, (omega arith, tt))))

plain : ArePlain env 1
unfolding validate_jwt
plain i (token, valid) = elim (Bool-cases (token == "ann1")) [
  | inl e ↦
      let named : ok ann ≡ ok i = rw (e, validate_jwt) at valid in
      let same : ann ≡ i = cc in subst (λ (j : Identity). Lacks b'}' j.tenant_id) same acme-plain
  | inr e ↦ absurd (let refused : err invalid_token ≡ ok i = rw (e, validate_jwt) at valid in cc)
]

sockets-Counts_example :
    (xs : List String) × (length xs ≤ 1)
    × Tracks server "acme" heard.last.store xs (open_of "acme" (places_in env 1 heard.last))
unfolding connected taken said heard
sockets-Counts_example =
    sockets-Counts env 1 heard.reach plain ((((((((λ k. refl), refl), tt), tt), tt), tt), tt), tt)
      (omega arith) "acme" acme-plain

-- The same with Kafka, up to the end of the turn.
produced_one : Run
unfolding connected taken said turn_program text_program generate_dm_conversation_id resume publish
    persist_message
produced_one = record {
  last = _;
  reach = later (said true).reach (resumes [] [] _ answered _ _ refl refl);
}

produced-IsReadable_example : Every (IsReadable env 1) (("messages", "ann", "hello") ∷ [])
unfolding connected taken said produced_one
produced-IsReadable_example = produced-IsReadable env 1 produced_one.reach refl

-- A consumer that reads the record twice; the table takes all rows.
abbrev commit : ℕ → Option ℕ
commit n = some n

abbrev content : ServerMessage → String
content m = (m.payload).text

abbrev AllAllowed : List String → Type 0
AllAllowed rows = Unit

accepts_all :
    (ms : List ServerMessage) (db : List String)
    → AllAllowed (db ++ map content ms)
    → (db' : List String) × (inserted ledger ms db ≡ some db') × (db' ≡ db ++ map content ms)
accepts_all ms db allowed = (_, refl, refl)

consumed-IsIssued_example :
    ("hi" ∷ "hi" ∷ [] ≡ map content (hello ∷ hello ∷ []))
    × Every (IsIssued env 1) (hello ∷ hello ∷ [])
unfolding connected taken said produced_one run step flush_batch push parse
consumed-IsIssued_example =
    consumed-IsIssued env 1 commit (λ db. db) content AllAllowed (λ xs ys h. tt) accepts_all
      produced_one.reach refl (record { buf = []; db = []; broker = 0 })
      (record { buf = hello ∷ hello ∷ []; db = []; broker = 0 })
      (record { buf = []; db = "hi" ∷ "hi" ∷ []; broker = 0 })
      (received (some "hello") ∷ received (some "hello") ∷ []) (inl refl, (inl refl, tt)) refl tt
      refl refl

-- The send task ends in the middle of the turn: the guard runs, what is left of the turn goes on, with an answer
-- of the database that is lost, the place is released, and the task still starts another turn.
ended : Run
unfolding connected taken said heard turn_program text_program generate_dm_conversation_id resume
    publish persist_message push remove_connection register join_group receive route
    send_msg_to_user get insert remove is_empty
ended = record {
  last = _;
  reach =
      later
        (later
          (later
            (later (later heard.reach (removes [] [] 0 ann 1 5 _ _ _ refl refl))
              (resumes [] [] _ lost _ _ refl refl))
            (drops [] [] 0 ann true _ refl))
          (releases [] [] 0 ann _ true refl))
        (lingers [] [] _ 5 6 (frame 6 draws (text "dm")) _ refl tt refl refl);
}

released-IsEmpty_example :
    ((n : ℕ) (t' u : String) (k : ℕ) → is_held queue_send (ended.last.nodes n) t' u k ≡ false)
    × Tracks server "acme" ended.last.store [] (λ u. 0)
unfolding connected taken said heard ended
released-IsEmpty_example =
    released-IsEmpty env 1 ended.reach (tt, tt) plain
      (((((((((((((λ k. refl), refl), tt), tt), tt), tt), tt), tt), tt), tt), tt), refl), tt)
      (omega arith) "acme" acme-plain
