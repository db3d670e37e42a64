-- ===== src/Db.antt =====
-- src/db/mod.rs: the batcher that writes messages to Postgres.
--
-- The database is the parameter `Database`: `insert_messages` runs the INSERT statement with its
-- eight array arguments, and gives `none` for an error, after which nothing is changed. A panic (an
-- index out of range) is `none` in the results below.
pub mod Rows
pub mod Flush
mod Tests
use yappa_core.Common.{
  ℕ, zero, suc, ◌+◌, Uuid, String, Bool, Option, none, some, List, [], ◌∷◌, ◌++◌, ◌==◌, Key,
  string_eq, if◌then◌else◌, ◌>>=◌, leb, length, get_elem?, map, unwrap_or, ℤ, as_i64,
}
use yappa_core.Protocol.{
  ChannelType, dm, group, community, ServerMessage, MessagePayload, empty_meta,
}

pub record Columns (DateTime : Type 0) : Type 0 where
  pub ids : List Uuid
  pub tenants : List String
  pub conversations : List Uuid
  pub channel_types : List String
  pub channel_ids : List String
  pub senders : List String
  pub contents : List String
  pub times : List DateTime

pub record Database : Type 1 where
  pub Db : Type 0
  pub DateTime : Type 0
  -- `DateTime::from_timestamp`, and `DateTime::default`
  pub from_timestamp : ℤ → Option DateTime
  pub default : DateTime
  pub insert_messages : Columns DateTime → Db → Option Db

pub record MessageBatcher : Type 0 where
  pub buffer : List ServerMessage
  pub capacity : ℕ

abbrev pub new : MessageBatcher
new = record { buffer = []; capacity = 1000 }

-- `{:?}`
abbrev pub debug : ChannelType → String
debug dm = "Dm"
debug group = "Group"
debug community = "Community"

-- The `match` by which a name is read back.
abbrev pub read_type : String → ChannelType
read_type name = if name == "Group" then group else (if name == "Dm" then dm else dm)

-- The vectors of the loop over the buffer, before the timestamps are converted.
abbrev pub Vectors : Type 0
Vectors = Columns ℕ

abbrev pub empty_vectors : Vectors
empty_vectors = record {
  ids = [];
  tenants = [];
  conversations = [];
  channel_types = [];
  channel_ids = [];
  senders = [];
  contents = [];
  times = [];
}

push_row : Vectors → ServerMessage → Vectors
push_row c m = record {
  ids = c.ids ++ m.message_id ∷ [];
  tenants = c.tenants ++ m.tenant_id ∷ [];
  conversations = c.conversations ++ m.conversation_id ∷ [];
  channel_types = c.channel_types ++ debug m.channel_type ∷ [];
  channel_ids = c.channel_ids ++ m.channel_id ∷ [];
  senders = c.senders ++ m.sender_id ∷ [];
  contents = c.contents ++ (m.payload).text ∷ [];
  times = c.times ++ m.timestamp ∷ [];
}

pub drain : Vectors → List ServerMessage → Vectors
drain c [] = c
drain c (m ∷ buffer) = drain (push_row c m) buffer

-- The message that is put back for row `i`; `none` for a panic.
rebuild : Vectors → ℕ → Option ServerMessage
rebuild c i = do
  id ← get_elem? c.ids i
  tenant ← get_elem? c.tenants i
  name ← get_elem? c.channel_types i
  channel ← get_elem? c.channel_ids i
  sender ← get_elem? c.senders i
  conversation ← get_elem? c.conversations i
  time ← get_elem? c.times i
  content ← get_elem? c.contents i
  some (record {
    msg_type = "chat";
    message_id = id;
    tenant_id = tenant;
    channel_type = read_type name;
    channel_id = channel;
    sender_id = sender;
    timestamp = time;
    conversation_id = conversation;
    payload = record { text = content; meta = empty_meta };
  })

-- The rows `i`, `i + 1`, … , `rows` of them.
pub rebuild_from : Vectors → ℕ → ℕ → Option (List ServerMessage)
rebuild_from c i zero = some []
rebuild_from c i (suc rows) = do
  m ← rebuild c i
  rest ← rebuild_from c (suc i) rows
  some (m ∷ rest)

module _ (database : Database) where
  open database use {Db, DateTime, from_timestamp, default, insert_messages}

  -- The conversion of the timestamps in the last `bind`.
  abbrev pub with_times : Vectors → Columns DateTime
  with_times c = record {
    ids = c.ids;
    tenants = c.tenants;
    conversations = c.conversations;
    channel_types = c.channel_types;
    channel_ids = c.channel_ids;
    senders = c.senders;
    contents = c.contents;
    times = map (λ ts. unwrap_or (from_timestamp (as_i64 ts)) default) c.times;
  }

  flush_rows : MessageBatcher → Db → Option (MessageBatcher × Db)
  flush_rows b db =
      let len = length b.buffer in
      let vectors = drain empty_vectors b.buffer in
      elim (insert_messages (with_times vectors) db) [
        | some db' ↦ some (record b { buffer = [] }, db')
        | none ↦ (do rebuilt ← rebuild_from vectors 0 len; some (record b { buffer = rebuilt }, db))
      ]

  unfoldable pub flush : MessageBatcher → Db → Option (MessageBatcher × Db)
  unfolding flush_rows drain push_row rebuild_from rebuild
  flush b db = elim b.buffer [ [] ↦ some (b, db) | _ ∷ _ ↦ flush_rows b db ]

  unfoldable pub push : MessageBatcher → ServerMessage → Db → Option (MessageBatcher × Db)
  unfolding flush
  push b msg db =
      let b' = record b { buffer = b.buffer ++ msg ∷ [] } in
      if leb b.capacity (length b'.buffer) then flush b' db else some (b', db)
