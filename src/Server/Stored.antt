-- ===== src/Server/Stored.antt =====
-- A message that a node persists directly, and the history that the same database gives: src/db/mod.rs with
-- src/server/history.rs.
--
-- `IsTable` is what the documentation of Postgres says of the two statements on one table `messages`: the
-- INSERT adds a row for each index of the arrays, which have one length here, and the SELECT with no `before`
-- gives each row of the channel where no more rows of it are stored than the limit allows. `epoch` is
-- EXTRACT(EPOCH …)::bigint and `as_text` the cast of a UUID to text.
use yappa_core.Common.{
  string_eq, ℕ, ℤ, pos, suc, ◌≤◌, leb, Uuid, String, Bool, true, ◌&&◌, none, some, List, [], ◌∷◌,
  ◌++◌, map, ◌==◌, ==-refl, ◌≡◌, refl, sym, ap, ◌∙◌, subst, Any, Any-middle, inl, inr, unwrap_or,
  as_i64, i64_max, if◌then◌else◌, arith,
}
use yappa_core.Protocol.{ServerMessage}
use yappa_core.Db.{Columns, Database, debug, with_times}
use yappa_core.Db.Rows.{vectors_of}
use yappa_core.Db.Flush.{inserted}
use yappa_core.Server.{ok, as_u64}
use yappa_core.Server.History.{
  ChannelPath, MessageRow, MessageResponse, FetchAll, history_sql, response, get_channel_history,
}

-- A row of the table.
pub record Row (DateTime : Type 0) : Type 0 where
  pub id : Uuid
  pub tenant : String
  pub conversation : Uuid
  pub channel_type : String
  pub channel_id : String
  pub sender : String
  pub content : String
  pub created_at : DateTime

module _ {DateTime : Type 0} where
  unfoldable pub unnested :
      List Uuid
      → List String
      → List Uuid
      → List String
      → List String
      → List String
      → List String
      → List DateTime
      → List (Row DateTime)
  unnested (i ∷ is) (t ∷ ts) (c ∷ cs) (y ∷ ys) (h ∷ hs) (s ∷ ss) (x ∷ xs) (d ∷ ds) =
      record {
        id = i;
        tenant = t;
        conversation = c;
        channel_type = y;
        channel_id = h;
        sender = s;
        content = x;
        created_at = d;
      }
      ∷ unnested is ts cs ys hs ss xs ds
  unnested _ _ _ _ _ _ _ _ = []

  -- The rows of the arrays.
  unfoldable pub rows_of : Columns DateTime → List (Row DateTime)
  unfolding unnested
  rows_of c =
      unnested c.ids c.tenants c.conversations c.channel_types c.channel_ids c.senders c.contents
        c.times

  abbrev pub is_of : ChannelPath → Row DateTime → Bool
  is_of path r =
      r.tenant == path.tenant_id
      && (r.channel_type == path.channel_type && r.channel_id == path.channel_id)

  abbrev pub how_many : ChannelPath → List (Row DateTime) → ℕ
  how_many path [] = 0
  how_many path (r ∷ rows) =
      let rest = how_many path rows in if is_of path r then suc rest else rest

module _ (database : Database) (fetch : database.Db → FetchAll) (as_text : Uuid → String)
    (epoch : database.DateTime → ℤ) where
  open database use {Db, DateTime, from_timestamp, insert_messages}

  abbrev pub selected : Row DateTime → MessageRow
  selected r = record {
    message_id = as_text r.id;
    channel_type = r.channel_type;
    channel_id = r.channel_id;
    sender_id = r.sender;
    text = r.content;
    timestamp = epoch r.created_at;
    conversation_id = as_text r.conversation;
  }

  pub record IsTable (stored : Db → List (Row DateTime)) : Type 0 where
    pub insert_lem :
        (c : Columns DateTime) (db db' : Db)
        → insert_messages c db ≡ some db'
        → stored db' ≡ stored db ++ rows_of c
    pub select_lem :
        (path : ChannelPath) (n : ℕ) (db : Db) (rows : List MessageRow) (r : Row DateTime)
        → fetch db (history_sql none) path.tenant_id path.channel_type path.channel_id (pos n)
          ≡ some rows
        → how_many path (stored db) ≤ n
        → Any (λ x. x ≡ r) (stored db)
        → is_of path r ≡ true
        → Any (λ x. x ≡ selected r) rows
    pub epoch_lem : (z : ℤ) (d : DateTime) → from_timestamp z ≡ some d → epoch d ≡ z

  -- Where the messages of a message's channel are asked for.
  abbrev pub path_of : ServerMessage → ChannelPath
  path_of m = record {
    tenant_id = m.tenant_id;
    channel_type = debug m.channel_type;
    channel_id = m.channel_id;
  }

  -- The message as the history gives it.
  abbrev pub answered : ServerMessage → MessageResponse
  answered m = record {
    message_id = as_text m.message_id;
    channel_type = debug m.channel_type;
    channel_id = m.channel_id;
    sender_id = m.sender_id;
    text = (m.payload).text;
    timestamp = m.timestamp;
    conversation_id = as_text m.conversation_id;
  }

  row_of : ServerMessage → DateTime → Row DateTime
  row_of m d = record {
    id = m.message_id;
    tenant = m.tenant_id;
    conversation = m.conversation_id;
    channel_type = debug m.channel_type;
    channel_id = m.channel_id;
    sender = m.sender_id;
    content = (m.payload).text;
    created_at = d;
  }

  Any-response :
      (x : MessageResponse) (r : MessageRow) (rows : List MessageRow)
      → response r ≡ x
      → Any (λ q. q ≡ r) rows
      → Any (λ y. y ≡ x) (map response rows)
  Any-response x r [] e h = h
  Any-response x r (q ∷ rows) e (inl h) = inl (ap response h ∙ e)
  Any-response x r (q ∷ rows) e (inr h) = inr (Any-response x r rows e h)

  as_i64-small : (n : ℕ) → n ≤ i64_max → as_i64 n ≡ pos n
  as_i64-small n h = ground arith

  module _ (stored : Db → List (Row DateTime)) (table : IsTable stored) where
    stored-row :
        (m : ServerMessage) (db db' : Db) (d : DateTime)
        → m.timestamp ≤ i64_max
        → from_timestamp (pos m.timestamp) ≡ some d
        → inserted database (m ∷ []) db ≡ some db'
        → stored db' ≡ stored db ++ row_of m d ∷ []
    unfolding rows_of unnested row_of
    stored-row m db db' d small time done =
        let at : unwrap_or (from_timestamp (as_i64 m.timestamp)) database.default ≡ d =
          ap (λ z. unwrap_or (from_timestamp z) database.default) (as_i64-small m.timestamp small)
          ∙ ap (λ o. unwrap_or o database.default) time in
        table.insert_lem (with_times database (vectors_of (m ∷ []))) db db' done
        ∙ ap (λ t. stored db ++ row_of m t ∷ []) at

    row-is_of : (m : ServerMessage) (d : DateTime) → is_of (path_of m) (row_of m d) ≡ true
    unfolding row_of
    row-is_of m d =
        rw (==-refl m.tenant_id, ==-refl (debug m.channel_type), ==-refl m.channel_id) refl

    limit-few : (n : ℕ) → n ≤ 100 → pos (if leb n 100 then n else 100) ≡ pos n
    limit-few n h = ground arith

    response-row :
        (m : ServerMessage) (d : DateTime)
        → from_timestamp (pos m.timestamp) ≡ some d
        → response (selected (row_of m d)) ≡ answered m
    unfolding row_of
    response-row m d time =
        ap (λ z. record (answered m) { timestamp = as_u64 z })
          (table.epoch_lem (pos m.timestamp) d time)

    -- What has been inserted is in the history.
    pub get_channel_history-inserted :
        (m : ServerMessage) (db db' : Db) (d : DateTime) (n : ℕ) (rows : List MessageRow)
        → m.timestamp ≤ i64_max
        → from_timestamp (pos m.timestamp) ≡ some d
        → inserted database (m ∷ []) db ≡ some db'
        → n ≤ 100
        → how_many (path_of m) (stored db') ≤ n
        → fetch db' (history_sql none) m.tenant_id (debug m.channel_type) m.channel_id (pos n)
          ≡ some rows
        → let answer =
            get_channel_history
              (fetch db')
              (path_of m)
              (record { before = none; limit = some (pos n) }) in
          (answer.status ≡ ok) × Any (λ x. x ≡ answered m) answer.body
    unfolding get_channel_history row_of
    get_channel_history-inserted m db db' d n rows small time done few room query =
        let r = row_of m d in
        let there : Any (λ x. x ≡ r) (stored db') =
          subst (λ l. Any (λ x. x ≡ r) l) (sym (stored-row m db db' d small time done))
            (Any-middle (λ x. x ≡ r) (stored db) r [] refl) in
        let found = table.select_lem (path_of m) n db' rows r query room there (row-is_of m d) in
        rw (limit-few n few, query, get_channel_history)
          (refl, Any-response (answered m) (selected r) rows (response-row m d time) found)
