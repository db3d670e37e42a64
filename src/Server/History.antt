-- ===== src/Server/History.antt =====
-- src/server/history.rs: the latest messages of a channel.
use yappa_core.Common.{
  ℕ, ℤ, pos, negsuc, leb, String, ◌<>◌, Option, none, some, List, [], map, unwrap_or, if◌then◌else◌,
}
use yappa_core.Server.{ok, internal_server_error, Answer, as_u64}

pub record HistoryQuery : Type 0 where
  pub before : Option String
  pub limit : Option ℤ

pub record ChannelPath : Type 0 where
  pub tenant_id : String
  pub channel_type : String
  pub channel_id : String

pub record MessageRow : Type 0 where
  pub message_id : String
  pub channel_type : String
  pub channel_id : String
  pub sender_id : String
  pub text : String
  pub timestamp : ℤ
  pub conversation_id : String

pub record MessageResponse : Type 0 where
  pub message_id : String
  pub channel_type : String
  pub channel_id : String
  pub sender_id : String
  pub text : String
  pub timestamp : ℕ
  pub conversation_id : String

-- `.min(100)`
abbrev pub at_most_100 : ℤ → ℤ
at_most_100 (pos n) = pos (if leb n 100 then n else 100)
at_most_100 (negsuc n) = negsuc n

abbrev pub limit_of : HistoryQuery → ℤ
limit_of query = at_most_100 (unwrap_or query.limit (pos 50))

abbrev pub before_clause : Option String → String
before_clause none = ""
before_clause (some b) = "AND created_at < to_timestamp(" <> b <> ")"

abbrev pub history_sql : Option String → String
history_sql before =
    "\n        SELECT message_id::text, channel_type, channel_id, sender_id, content as text, \n               EXTRACT(EPOCH FROM created_at)::bigint as timestamp, conversation_id::text as conversation_id\n        FROM messages\n        WHERE tenant_id = $1 \n          AND channel_type = $2\n          AND channel_id = $3\n          "
    <> before_clause before
    <> "\n        ORDER BY created_at DESC\n        LIMIT $4\n        "

abbrev pub response : MessageRow → MessageResponse
response m = record {
  message_id = m.message_id;
  channel_type = m.channel_type;
  channel_id = m.channel_id;
  sender_id = m.sender_id;
  text = m.text;
  timestamp = as_u64 m.timestamp;
  conversation_id = m.conversation_id;
}

-- The query's text, the three texts that are bound, and the limit.
abbrev pub FetchAll : Type 0
FetchAll = String → String → String → String → ℤ → Option (List MessageRow)

unfoldable pub get_channel_history : FetchAll → ChannelPath → HistoryQuery → Answer MessageResponse
get_channel_history fetch_all path query =
    elim (fetch_all (history_sql query.before) path.tenant_id path.channel_type path.channel_id
      (limit_of query)) [
        | none ↦ record { status = internal_server_error; body = [] }
        | some messages ↦ record { status = ok; body = map response messages }
      ]
