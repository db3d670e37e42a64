-- ===== src/Ws/History/Tests.antt =====
-- ann writes to bob, and the history of bob's direct messages is asked for.
use yappa_core.Common.{
  string_eq, nat_eq, ℤ, pos, negsuc, Uuid, String, true, false, ◌==◌, Option, none, some, List, [],
  ◌∷◌, ◌++◌, ◌≡◌, refl, sym, ap, ◌∙◌, subst, Any, inl, inr, Bool-cases, some-injective,
  if◌then◌else◌, arith,
}
use yappa_core.Protocol.{generate_dm_conversation_id}
use yappa_core.Sample.{ann, queue_send, services, draws}
use yappa_core.Connection.{empty}
use yappa_core.Db.{Database}
use yappa_core.Server.History.{ChannelPath, MessageRow, FetchAll}
use yappa_core.Server.Stored.{Row, rows_of, unnested, is_of, IsTable}
use yappa_core.Ws.{World, handle_text_message}
use yappa_core.Ws.History.{Shows, shown, directs_to, handle_text_message-history}

-- A database that keeps its rows, in order, with times in seconds.
abbrev table : Database
table = record {
  Db = List (Row ℤ);
  DateTime = ℤ;
  from_timestamp = λ z. some z;
  default = pos 0;
  insert_messages = λ c db. some (db ++ rows_of c);
}

abbrev as_text : Uuid → String
as_text id = if id == 1 then "1" else "other"

abbrev seconds : ℤ → ℤ
seconds z = z

-- A row as the SELECT gives it.
abbrev given : Row ℤ → MessageRow
given r = record {
  message_id = as_text r.id;
  channel_type = r.channel_type;
  channel_id = r.channel_id;
  sender_id = r.sender;
  text = r.content;
  timestamp = r.created_at;
  conversation_id = as_text r.conversation;
}

abbrev rows_in : ChannelPath → List (Row ℤ) → List MessageRow
rows_in path [] = []
rows_in path (r ∷ rows) =
    let rest = rows_in path rows in if is_of path r then given r ∷ rest else rest

abbrev up_to : ℤ → List MessageRow → Option (List MessageRow)
up_to (pos n) rows = some rows
up_to (negsuc n) rows = none

abbrev fetch : List (Row ℤ) → FetchAll
fetch db sql tenant_id channel_type channel_id limit = up_to limit (
    rows_in (record { tenant_id = tenant_id; channel_type = channel_type; channel_id = channel_id })
      db)

rows_in-has :
    (path : ChannelPath) (db : List (Row ℤ)) (r : Row ℤ)
    → Any (λ x. x ≡ r) db
    → is_of path r ≡ true
    → Any (λ x. x ≡ given r) (rows_in path db)
rows_in-has path [] r h k = h
rows_in-has path (q ∷ db) r (inl e) k =
    let same : is_of path q ≡ true = ap (λ x. is_of path x) e ∙ k in rw same (inl (ap given e))
rows_in-has path (q ∷ db) r (inr h) k = elim (Bool-cases (is_of path q)) [
  | inl e ↦ rw e (inr (rows_in-has path db r h k))
  | inr e ↦ rw e (rows_in-has path db r h k)
]

table-IsTable : IsTable table fetch as_text seconds (λ db. db)
table-IsTable = record {
  insert_lem = λ c db db' e. sym (some-injective _ _ e);
  select_lem = λ path n db rows r e room there of.
      subst (λ l. Any (λ x. x ≡ given r) l) (some-injective _ _ e) (rows_in-has path db r there of);
  epoch_lem = λ z d e. sym (some-injective _ _ e);
}

abbrev world : World services table queue_send
world = record {
  registry = empty;
  tables = λ c u. false;
  messages = [];
  kafka = false;
  published = [];
  produced = [];
}

-- bob's channel with ann's message.
abbrev stored : Row ℤ
stored = record {
  id = 1;
  tenant = "acme";
  conversation = generate_dm_conversation_id services.sha256 services.from_slice "ann" "bob" 100;
  channel_type = "Dm";
  channel_id = "bob";
  sender = "ann";
  content = "hi";
  created_at = pos 5;
}

handle_text_message-history_example :
    (w' : World services table queue_send) × (handle_text_message services table queue_send "dm" ann
        draws world
      ≡ some w')
    × Shows services table queue_send ann fetch as_text seconds
        (λ db. db)
        table-IsTable
        (directs_to services table queue_send ann fetch as_text seconds
          (λ db. db)
          table-IsTable
          "bob")
        (shown services table queue_send ann fetch as_text seconds
          (λ db. db)
          table-IsTable
          draws
          "bob"
          "hi")
        10
        w'.messages
unfolding rows_of unnested
handle_text_message-history_example =
    handle_text_message-history services table queue_send ann fetch as_text seconds (λ db. db)
      table-IsTable "dm" "bob" "hi" "hi" draws world (stored ∷ []) (pos 5) 10 (given stored ∷ [])
      refl refl refl refl refl (omega arith) refl refl (omega arith) (omega arith) refl
