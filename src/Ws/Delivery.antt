-- ===== src/Ws/Delivery.antt =====
-- A group chat from its sender's node to the connections of the group's members on any node.
use Prim.Native.String.{len}
use yappa_core.Common.{
  string_eq, nat_eq, String, ◌≡◌, ◌≢◌, refl, ap, ◌∙◌, true, false, ◌&&◌, Option, none, some, [],
  ◌∷◌, ◌++◌, ◌<>◌, ◌==◌, ltb, unwrap_or, if◌then◌else◌,
}
use yappa_core.Auth.{Identity}
use yappa_core.Protocol.{ChannelType, dm, group, community, ServerMessage, Message, text}
use yappa_core.Connection.{ConnectionRegistry, ConnectionId, TrySend, is_user_in_group}
use yappa_core.Connection.Deliver.{kept_after}
use yappa_core.Connection.Spec.{is_in, view, channel_of}
use yappa_core.Connection.Valid.{IsValid}
use yappa_core.Redis.{publish_grp, receive}
use yappa_core.Redis.Routing.{view-receive}
use yappa_core.Db.{Database}
use yappa_core.Ws.Persist.{persisted, persist_message_lem}
use yappa_core.Ws.{
  Services, Draws, World, WsMessage, handle_group_chat, handle_by_type, handle_chat,
  handle_text_message, max_payload_size, publishes, server_message,
}

module _ (sv : Services) (database : Database) {S : Type 0} (try_send : S → Message → TrySend × S)
    (identity : Identity) where
  abbrev W : Type 0
  W = World sv database try_send

  -- The message that a group chat becomes.
  abbrev pub group_message : WsMessage → Draws → ServerMessage
  group_message payload d =
      server_message "chat" identity d payload.channel_type payload.user_id
        (unwrap_or (sv.parse_uuid payload.user_id) d.spare_uuid) payload.content

  publishes-one :
      (w : W) (group_id : String) (m : ServerMessage) (p : String)
      → sv.to_string m ≡ some p
      → publishes sv database try_send w (publish_grp sv.to_string group_id m)
        ≡ record w { published = w.published ++ ("group:" <> group_id, p) ∷ [] }
  unfolding publish_grp
  publishes-one w group_id m p json = rw (json, publish_grp) refl

  group_chat-published :
      (payload : WsMessage) (p : String) (d : Draws) (w : W)
      → is_user_in_group w.registry identity.tenant_id payload.user_id identity.user_id ≡ true
      → sv.to_string (group_message payload d) ≡ some p
      → handle_group_chat sv database try_send payload identity d w
        ≡ some (
            persisted sv database try_send
              (record w { published = w.published ++ ("group:" <> payload.user_id, p) ∷ [] })
              (group_message payload d))
  unfolding handle_group_chat
  group_chat-published payload p d w inside json =
      let m = group_message payload d in
      rw (inside, handle_group_chat)
        (persist_message_lem sv database try_send _ m
          ∙ ap (λ q. some (persisted sv database try_send q m))
              (publishes-one w payload.user_id m p json))

  by_type-published :
      (ct : ChannelType) (payload : WsMessage) (p : String) (d : Draws) (w : W)
      → ct ≢ dm
      → is_user_in_group w.registry identity.tenant_id payload.user_id identity.user_id ≡ true
      → sv.to_string (group_message payload d) ≡ some p
      → handle_by_type sv database try_send ct payload identity d w
        ≡ some (
            persisted sv database try_send
              (record w { published = w.published ++ ("group:" <> payload.user_id, p) ∷ [] })
              (group_message payload d))
  unfolding handle_by_type
  by_type-published dm payload p d w h inside json = absurd (h refl)
  by_type-published group payload p d w h inside json =
      group_chat-published payload p d w inside json
  by_type-published community payload p d w h inside json =
      group_chat-published payload p d w inside json

  -- What a node's connections are once it has received the message.
  abbrev pub Delivered :
      String → String → String → ConnectionRegistry S → ConnectionRegistry S → Type 0
  Delivered tenant group_id p r r' =
      (t u : String) (k : ConnectionId)
      → channel_of r' t u k ≡ (
          if (tenant == t) && is_in ((view r).group tenant group_id) u
          then kept_after try_send (text p) (channel_of r t u k)
          else channel_of r t u k)

  received :
      (from_str : String → Option ServerMessage) (r : ConnectionRegistry S) (ct : ChannelType)
      (m : ServerMessage) (p : String)
      → IsValid r
      → ct ≢ dm
      → m.channel_type ≡ ct
      → m.msg_type ≡ "chat"
      → sv.to_string m ≡ some p
      → from_str p ≡ some m
      → Delivered m.tenant_id m.channel_id p r (receive try_send sv.to_string from_str r p)
  received from_str r dm m p v h kind chat json back t u k = absurd (h refl)
  received from_str r group m p v h kind chat json back t u k =
      ap (λ q. q.channel t u k) (view-receive try_send sv.to_string from_str r p m v back)
      ∙ rw (json, kind, chat) refl
  received from_str r community m p v h kind chat json back t u k =
      ap (λ q. q.channel t u k) (view-receive try_send sv.to_string from_str r p m v back)
      ∙ rw (json, kind, chat) refl

  -- A chat of at most 64 KiB that a member of a group or community sends is published once, to the channel
  -- of the group, and persisted; and every well-formed node that receives what was published, where
  -- serde reads the message back, hands it to the open connections of the members that the group
  -- has there, in the sender's tenant, and to no others.
  pub handle_text_message-Delivered :
      (from_str : String → Option ServerMessage) (content : String) (payload : WsMessage)
      (p : String) (d : Draws) (w : W) (r : ConnectionRegistry S)
      → sv.parse_group content ≡ none
      → sv.parse_ws content ≡ some payload
      → ltb max_payload_size (len payload.content) ≡ false
      → payload.channel_type ≢ dm
      → is_user_in_group w.registry identity.tenant_id payload.user_id identity.user_id ≡ true
      → sv.to_string (group_message payload d) ≡ some p
      → from_str p ≡ some (group_message payload d)
      → IsValid r
      → (handle_text_message sv database try_send content identity d w
          ≡ some (
              persisted sv database try_send
                (record w { published = w.published ++ ("group:" <> payload.user_id, p) ∷ [] })
                (group_message payload d)))
        × Delivered identity.tenant_id payload.user_id p r
            (receive try_send sv.to_string from_str r p)
  unfolding handle_text_message handle_chat
  handle_text_message-Delivered from_str content payload p d w r none_group chat fits kind inside
        json back v =
      (
        rw (none_group, chat, fits, handle_text_message)
            (by_type-published payload.channel_type payload p d w kind inside json),
        received from_str r payload.channel_type (group_message payload d) p v kind refl refl json
            back,
      )
