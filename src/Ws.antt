-- ===== src/Ws.antt =====
-- src/server/ws.rs, the part that handles a client's text: `handle_text_message` and
-- `persist_message`. `Ws.Upgrade` has the handshake and `Ws.Socket` the life of a connection.
--
-- The parameters `Services` are what the handler calls and this repository does not implement: the
-- group tables in Postgres, serde, the UUID parser and SHA-256. `Draws` holds what the clock and
-- `Uuid::new_v4` give during one call. The result of a publish or a produce is only logged, so
-- the model keeps what was handed over: `published` for Redis and `produced` for Kafka. `none`
-- is a panic.
pub mod Persist
pub mod Authentic
pub mod Effects
pub mod Isolation
pub mod Rules
pub mod History
pub mod Tables
pub mod Delivery
pub mod Membership
pub mod Upgrade
pub mod Socket
pub mod Program
mod Tests
use Prim.Native.String.{len}
use yappa_core.Common.{
  ◌>>=◌, string_eq, ℕ, Uuid, String, Bool, true, false, Option, none, some, List, [], ◌∷◌, ◌++◌,
  ◌<>◌, ltb, unwrap_or, if◌then◌else◌,
}
use yappa_core.Auth.{Identity}
use yappa_core.Protocol.{
  ChannelType, dm, group, community, GroupMessageType, join, leave, create, delete, ServerMessage,
  MessagePayload, GroupMessage, Message, text, empty_meta, generate_dm_conversation_id,
}
use yappa_core.Connection.{
  ConnectionRegistry, TrySend, join_group, leave_group, create_group, delete_group,
  is_user_in_group, send_msg_to_user,
}
use yappa_core.Redis.{publish, publish_grp}
use yappa_core.Db.{Database, MessageBatcher, new, push, flush}

pub record WsMessage : Type 0 where
  pub channel_type : ChannelType
  pub user_id : String
  pub content : String

abbrev pub max_payload_size : ℕ
max_payload_size = 65536

pub record Services : Type 1 where
  pub Tables : Type 0
  -- SELECT conversation_id … WHERE tenant_id AND name; `none` for an error or no row
  pub find_group : Tables → String → String → Option Uuid
  -- INSERT INTO group_members … DO NOTHING; `none` for an error, as below
  pub add_member : Tables → Uuid → String → String → Option Tables
  -- DELETE FROM group_members WHERE conversation_id AND user_id
  pub remove_member : Tables → Uuid → String → Option Tables
  -- INSERT INTO groups … DO UPDATE … RETURNING conversation_id
  pub upsert_group : Tables → Uuid → String → String → String → Option (Uuid × Tables)
  pub parse_group : String → Option GroupMessage
  pub parse_ws : String → Option WsMessage
  pub to_string : ServerMessage → Option String
  pub parse_uuid : String → Option Uuid
  pub sha256 : String → List ℕ
  pub from_slice : List ℕ → Option Uuid

pub record Draws : Type 0 where
  pub now : ℕ
  pub message_uuid : Uuid
  pub spare_uuid : Uuid

abbrev pub server_message :
    String → Identity → Draws → ChannelType → String → Uuid → String → ServerMessage
server_message msg_type identity d channel_type channel_id conversation_id content = record {
  msg_type = msg_type;
  message_id = d.message_uuid;
  tenant_id = identity.tenant_id;
  channel_type = channel_type;
  channel_id = channel_id;
  sender_id = identity.user_id;
  timestamp = d.now;
  conversation_id = conversation_id;
  payload = record { text = content; meta = empty_meta };
}

module _ (sv : Services) (database : Database) {S : Type 0}
    (try_send : S → Message → TrySend × S) where
  open sv use {
    Tables, find_group, add_member, remove_member, upsert_group, parse_group, parse_ws, to_string,
    parse_uuid, sha256, from_slice,
  }

  -- `AppState` and what has been handed to the brokers; `kafka` tells whether a Kafka handle is there.
  pub record World : Type 0 where
    pub registry : ConnectionRegistry S
    pub tables : Tables
    pub messages : database.Db
    pub kafka : Bool
    pub published : List (String × String)
    pub produced : List (String × String × String)

  abbrev publishes : World → Option (String × String) → World
  publishes w none = w
  publishes w (some command) = record w { published = w.published ++ command ∷ [] }

  handle_join : GroupMessage → Identity → Draws → World → World
  handle_join g identity d w = elim (find_group w.tables identity.tenant_id g.group_id) [
    | none ↦ w
    | some conversation_id ↦
        let tables' =
          unwrap_or (add_member w.tables conversation_id identity.tenant_id identity.user_id)
            w.tables in
        let registry' = join_group w.registry identity.tenant_id g.group_id identity.user_id in
        let server_msg =
          server_message "group_join" identity d group g.group_id conversation_id
            (identity.user_id <> " has joined the group") in
        publishes (record w { tables = tables'; registry = registry' })
          (publish_grp to_string g.group_id server_msg)
  ]

  handle_leave : GroupMessage → Identity → Draws → World → World
  handle_leave g identity d w =
      let conversation_id = unwrap_or (parse_uuid g.group_id) d.spare_uuid in
      let tables' = unwrap_or (remove_member w.tables conversation_id identity.user_id) w.tables in
      let registry' = leave_group w.registry identity.tenant_id g.group_id identity.user_id in
      let server_msg =
        server_message "group_leave" identity d group g.group_id conversation_id
          (identity.user_id <> " has left the group") in
      publishes (record w { tables = tables'; registry = registry' })
        (publish_grp to_string g.group_id server_msg)

  handle_create : GroupMessage → Identity → Draws → World → World
  handle_create g identity d w =
      let wanted = unwrap_or (parse_uuid g.group_id) d.spare_uuid in
      elim (upsert_group w.tables wanted identity.tenant_id g.group_id identity.user_id) [
        | none ↦ w
        | some (conversation_id, tables') ↦
            let tables'' =
              unwrap_or (add_member tables' conversation_id identity.tenant_id identity.user_id)
                tables' in
            let created = create_group w.registry identity.tenant_id g.group_id in
            let registry' = join_group created identity.tenant_id g.group_id identity.user_id in
            let server_msg =
              server_message "group_created" identity d group g.group_id conversation_id
                ("Group " <> g.group_id <> " created by " <> identity.user_id) in
            publishes (record w { tables = tables''; registry = registry' })
              (publish_grp to_string g.group_id server_msg)
      ]

  handle_delete : GroupMessage → Identity → World → World
  handle_delete g identity w = record w {
    registry = delete_group w.registry identity.tenant_id g.group_id;
  }

  handle_group : GroupMessageType → GroupMessage → Identity → Draws → World → World
  unfolding handle_join handle_leave handle_create handle_delete
  handle_group join g identity d w = handle_join g identity d w
  handle_group leave g identity d w = handle_leave g identity d w
  handle_group create g identity d w = handle_create g identity d w
  handle_group delete g identity d w = handle_delete g identity w

  -- Kafka's topic, key and payload, or one message through a batcher of its own.
  unfoldable pub persist_message : World → ServerMessage → Option World
  persist_message w msg =
      if w.kafka
      then elim (to_string msg) [
        | none ↦ some w
        | some payload ↦
            some (record w { produced = w.produced ++ ("messages", msg.channel_id, payload) ∷ [] })
      ]
      else (do
        (batcher, messages') ← push database new msg w.messages
        (_, messages'') ← flush database batcher messages'
        some (record w { messages = messages'' }))

  -- `send_msg_to_user` to the client itself.
  answer : World → Identity → String → World
  answer w identity reply = record w {
    registry =
        send_msg_to_user try_send w.registry identity.tenant_id identity.user_id (text reply);
  }

  handle_dm : WsMessage → Identity → Draws → World → Option World
  handle_dm payload identity d w =
      let conversation_id =
        generate_dm_conversation_id sha256 from_slice identity.user_id payload.user_id
          d.spare_uuid in
      let server_msg =
        server_message "chat" identity d payload.channel_type payload.user_id conversation_id
          payload.content in
      let to_recipient = publishes w (publish to_string payload.user_id server_msg) in
      let to_sender = publishes to_recipient (publish to_string identity.user_id server_msg) in
      persist_message to_sender server_msg

  handle_group_chat : WsMessage → Identity → Draws → World → Option World
  unfolding answer
  handle_group_chat payload identity d w =
      if is_user_in_group w.registry identity.tenant_id payload.user_id identity.user_id
      then (let conversation_id = unwrap_or (parse_uuid payload.user_id) d.spare_uuid in
          let server_msg =
            server_message "chat" identity d payload.channel_type payload.user_id conversation_id
              payload.content in
          persist_message (publishes w (publish_grp to_string payload.user_id server_msg))
            server_msg)
      else some (answer w identity "You must join the group before sending messages")

  handle_by_type : ChannelType → WsMessage → Identity → Draws → World → Option World
  unfolding handle_dm handle_group_chat
  handle_by_type dm payload identity d w = handle_dm payload identity d w
  handle_by_type group payload identity d w = handle_group_chat payload identity d w
  handle_by_type community payload identity d w = handle_group_chat payload identity d w

  handle_chat : WsMessage → Identity → Draws → World → Option World
  unfolding handle_by_type answer
  handle_chat payload identity d w =
      if ltb max_payload_size (len payload.content)
      then some (answer w identity "Payload too large")
      else handle_by_type payload.channel_type payload identity d w

  -- A group message first, then a chat message; any other text is dropped.
  unfoldable pub handle_text_message : String → Identity → Draws → World → Option World
  unfolding handle_group handle_chat
  handle_text_message content identity d w = elim (parse_group content) [
    | some g ↦ some (handle_group g.msg_type g identity d w)
    | none ↦ elim (parse_ws content) [
      | some payload ↦ handle_chat payload identity d w
      | none ↦ some w
    ]
  ]
