-- ===== src/Redis.antt =====
-- src/redis/mod.rs: the channels that messages are published on, and the listener that hands what
-- comes in to the node's registry.
--
-- `to_string` and `from_str` are serde's for `ServerMessage`, `none` for an error. A stream is the list
-- of what `get_payload` gives, `none` for a payload that is no text. The connection to the server
-- is left out: a publish is the channel and the payload of its PUBLISH command.
pub mod Routing
pub mod Calls
pub mod Stream
mod Tests
use yappa_core.Common.{
  string_eq, Key, String, Bool, true, false, Option, none, some, List, [], ◌∷◌, ◌==◌, if◌then◌else◌,
  ◌<>◌, unwrap_or,
}
use yappa_core.Protocol.{ChannelType, dm, group, community, ServerMessage, Message, text}
use yappa_core.Connection.{
  ConnectionRegistry, TrySend, join_group, send_msg_to_user, send_msg_to_group,
}

module _ (to_string : ServerMessage → Option String) where
  unfoldable pub publish : String → ServerMessage → Option (String × String)
  publish user_id msg = elim (to_string msg) [
    | none ↦ none
    | some payload ↦ some ("user:" <> msg.tenant_id <> ":" <> user_id, payload)
  ]

  unfoldable pub publish_grp : String → ServerMessage → Option (String × String)
  publish_grp group_id msg = elim (to_string msg) [
    | none ↦ none
    | some payload ↦ some ("group:" <> group_id, payload)
  ]

module _ {S : Type 0} (try_send : S → Message → TrySend × S)
    (to_string : ServerMessage → Option String) (from_str : String → Option ServerMessage) where
  -- The `match` on the channel type.
  fan_out : ChannelType → ConnectionRegistry S → ServerMessage → Message → ConnectionRegistry S
  fan_out dm registry server_msg ws_msg =
      send_msg_to_user try_send registry server_msg.tenant_id server_msg.channel_id ws_msg
  fan_out group registry server_msg ws_msg =
      send_msg_to_group try_send registry server_msg.tenant_id server_msg.channel_id ws_msg
  fan_out community registry server_msg ws_msg =
      send_msg_to_group try_send registry server_msg.tenant_id server_msg.channel_id ws_msg

  -- The body of the loop, for a payload that parses.
  unfoldable pub route : ConnectionRegistry S → ServerMessage → ConnectionRegistry S
  unfolding fan_out
  route registry server_msg =
      let ws_msg = text (unwrap_or (to_string server_msg) "") in
      if server_msg.msg_type == "group_join"
      then send_msg_to_group try_send
          (join_group registry server_msg.tenant_id server_msg.channel_id server_msg.sender_id)
          server_msg.tenant_id server_msg.channel_id ws_msg
      else fan_out server_msg.channel_type registry server_msg ws_msg

  unfoldable pub receive : ConnectionRegistry S → String → ConnectionRegistry S
  receive registry payload = elim (from_str payload) [
    | none ↦ registry
    | some server_msg ↦ route registry server_msg
  ]

  -- The registry at the end, and whether the listener ended with no error.
  pub listener : ConnectionRegistry S → List (Option String) → ConnectionRegistry S × Bool
  listener registry [] = (registry, true)
  listener registry (none ∷ stream) = (registry, false)
  listener registry (some payload ∷ stream) = listener (receive registry payload) stream
