-- ===== src/Protocol.antt =====
-- src/protocol/mod.rs: the messages on the wire and the conversation of two users.
--
-- `serde_json::Value` is kept as its compact text. SHA-256 and `Uuid::from_slice` are parameters of
-- `generate_dm_conversation_id`, as is the UUID that `Uuid::new_v4` would draw.
pub mod Conversation
mod Tests
use yappa_core.Common.{
  ℕ, Uuid, String, Option, none, some, if◌then◌else◌, string_ltb, unwrap_or, List, take, ◌<>◌,
}

pub data ChannelType : Type 0 where
  dm group community : ChannelType

pub data GroupMessageType : Type 0 where
  join leave create delete : GroupMessageType

pub record MessagePayload : Type 0 where
  pub text : String
  pub meta : String

pub record ServerMessage : Type 0 where
  pub msg_type : String
  pub message_id : Uuid
  pub tenant_id : String
  pub channel_type : ChannelType
  pub channel_id : String
  pub sender_id : String
  pub timestamp : ℕ
  pub conversation_id : Uuid
  pub payload : MessagePayload

-- The frames of axum's `ws::Message` that the program tells apart; it sends empty pings.
pub data Message : Type 0 where
  text : String → Message
  binary ping pong close : Message

pub record GroupMessage : Type 0 where
  pub msg_type : GroupMessageType
  pub tenant_id : String
  pub group_id : String
  pub user_id : String

-- `serde_json::json!({})`
abbrev pub empty_meta : String
empty_meta = "{}"

-- `participants.sort()` on two texts, joined by a colon.
combined : String → String → String
combined user_a user_b =
    if string_ltb user_b user_a then user_b <> ":" <> user_a else user_a <> ":" <> user_b

module _ (sha256 : String → List ℕ) (from_slice : List ℕ → Option Uuid) where
  unfoldable pub generate_dm_conversation_id : String → String → Uuid → Uuid
  unfolding combined
  generate_dm_conversation_id user_a user_b new_v4 =
      unwrap_or (from_slice (take 16 (sha256 (combined user_a user_b)))) new_v4
