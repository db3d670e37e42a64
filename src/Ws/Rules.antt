-- ===== src/Ws/Rules.antt =====
-- What a chat needs to get through, what a direct message publishes, and what a leave misses.
use Prim.Native.String.{len}
use yappa_core.Common.{
  string_eq, Uuid, String, ◌≡◌, ◌≢◌, ◌⊎◌, refl, sym, ap, ◌∙◌, Bool, true, false, ◌&&◌, Option, none,
  some, [], ◌∷◌, ◌++◌, ◌<>◌, ltb, unwrap_or, if◌then◌else◌, arith, Option-cases, Bool-cases, inl,
  inr, append_assoc, ◌==◌, nat_eq, ==-false,
}
use yappa_core.Auth.{Identity}
use yappa_core.Protocol.{
  ChannelType, dm, group, community, leave, ServerMessage, GroupMessage, Message,
  generate_dm_conversation_id,
}
use yappa_core.Connection.{TrySend, is_user_in_group}
use yappa_core.Connection.Groups.{is_user_in_group-leave_group}
use yappa_core.Redis.{publish}
use yappa_core.Db.{Database}
use yappa_core.Ws.Persist.{persisted, persist_message_lem}
use yappa_core.Ws.{
  Services, Draws, World, WsMessage, handle_leave, answer, handle_group_chat, handle_by_type,
  handle_chat, handle_text_message, max_payload_size, publishes, server_message,
}

module _ (sv : Services) (database : Database) {S : Type 0} (try_send : S → Message → TrySend × S)
    (identity : Identity) where
  abbrev W : Type 0
  W = World sv database try_send

  -- Nothing is published, produced or stored.
  abbrev pub IsSilent : W → W → Type 0
  IsSilent w w' =
      (w'.published ≡ w.published) × (w'.produced ≡ w.produced) × (w'.messages ≡ w.messages)

  answer-IsSilent :
      (w w' : W) (reply : String)
      → some (answer sv database try_send w identity reply) ≡ some w'
      → IsSilent w w'
  unfolding answer
  answer-IsSilent w w' reply e = ground arith

  group_chat-IsSilent :
      (payload : WsMessage) (d : Draws) (w w' : W)
      → is_user_in_group w.registry identity.tenant_id payload.user_id identity.user_id ≡ false
      → handle_group_chat sv database try_send payload identity d w ≡ some w'
      → IsSilent w w'
  unfolding handle_group_chat
  group_chat-IsSilent payload d w w' out e =
      answer-IsSilent w w' _ (rw (out, handle_group_chat) at e)

  by_type-IsSilent :
      (ct : ChannelType) (payload : WsMessage) (d : Draws) (w w' : W)
      → ct ≢ dm
      → is_user_in_group w.registry identity.tenant_id payload.user_id identity.user_id ≡ false
      → handle_by_type sv database try_send ct payload identity d w ≡ some w'
      → IsSilent w w'
  unfolding handle_by_type
  by_type-IsSilent dm payload d w w' h out e = absurd (h refl)
  by_type-IsSilent group payload d w w' h out e = group_chat-IsSilent payload d w w' out e
  by_type-IsSilent community payload d w w' h out e = group_chat-IsSilent payload d w w' out e

  -- A chat that is longer than 64 KiB, or that is for a group or community which the client has not
  -- joined, is neither published nor produced nor stored.
  pub handle_text_message-IsSilent :
      (content : String) (payload : WsMessage) (d : Draws) (w w' : W)
      → sv.parse_group content ≡ none
      → sv.parse_ws content ≡ some payload
      → (ltb max_payload_size (len payload.content) ≡ true)
        ⊎ ((payload.channel_type ≢ dm)
            × (is_user_in_group w.registry identity.tenant_id payload.user_id identity.user_id
                ≡ false))
      → handle_text_message sv database try_send content identity d w ≡ some w'
      → IsSilent w w'
  unfolding handle_text_message handle_chat
  handle_text_message-IsSilent content payload d w w' p q (inl large) e =
      answer-IsSilent w w' _ (rw (p, q, large, handle_text_message) at e)
  handle_text_message-IsSilent content payload d w w' p q (inr (h, out)) e =
      elim (Bool-cases (ltb max_payload_size (len payload.content))) [
        | inl large ↦ answer-IsSilent w w' _ (rw (p, q, large, handle_text_message) at e)
        | inr fits ↦
            by_type-IsSilent payload.channel_type payload d w w' h out
              (rw (p, q, fits, handle_text_message) at e)
      ]

  -- The message that a direct chat becomes.
  abbrev pub dm_message : WsMessage → Draws → ServerMessage
  dm_message payload d =
      server_message "chat" identity d dm payload.user_id
        (generate_dm_conversation_id sv.sha256 sv.from_slice identity.user_id payload.user_id
          d.spare_uuid)
        payload.content

  publishes-twice :
      (w : W) (m : ServerMessage) (a b p : String)
      → sv.to_string m ≡ some p
      → publishes sv database try_send
          (publishes sv database try_send w (publish sv.to_string a m))
          (publish sv.to_string b m)
        ≡ record w {
          published =
              w.published
              ++ ("user:" <> m.tenant_id <> ":" <> a, p)
                ∷ ("user:" <> m.tenant_id <> ":" <> b, p)
                ∷ [];
        }
  unfolding publish
  publishes-twice w m a b p e =
      rw (e, publish)
        (ap (λ l. record w { published = l })
          (append_assoc w.published (("user:" <> m.tenant_id <> ":" <> a, p) ∷ []) _))

  -- A direct chat of at most 64 KiB is published twice, to the channel of its recipient and to that of its
  -- sender, with the same payload, and then persisted; the registry stays as it is.
  pub handle_text_message-dm :
      (content to said p : String) (d : Draws) (w : W)
      → let payload : WsMessage = record { channel_type = dm; user_id = to; content = said } in
        sv.parse_group content ≡ none
        → sv.parse_ws content ≡ some payload
        → ltb max_payload_size (len said) ≡ false
        → sv.to_string (dm_message payload d) ≡ some p
        → handle_text_message sv database try_send content identity d w
          ≡ some (
              persisted sv database try_send
                (record w {
                  published =
                      w.published
                      ++ ("user:" <> identity.tenant_id <> ":" <> to, p)
                        ∷ ("user:" <> identity.tenant_id <> ":" <> identity.user_id, p)
                        ∷ [];
                })
                (dm_message payload d))
  unfolding handle_text_message publish
  handle_text_message-dm content to said p d w none_group chat fits json =
      let m = dm_message (record { channel_type = dm; user_id = to; content = said }) d in
      rw (none_group, chat, fits, handle_text_message)
        (persist_message_lem sv database try_send _ m
          ∙ ap (λ q. some (persisted sv database try_send q m))
              (publishes-twice w m to identity.user_id p json))

  pub tables-publishes :
      (w : W) (o : Option (String × String))
      → (publishes sv database try_send w o).tables ≡ w.tables
  tables-publishes w none = refl
  tables-publishes w (some c) = refl

  registry-publishes :
      (w : W) (o : Option (String × String))
      → (publishes sv database try_send w o).registry ≡ w.registry
  registry-publishes w none = refl
  registry-publishes w (some c) = refl

  leave-keeps-row :
      (is_member : sv.Tables → Uuid → String → Bool)
      → ((tables tables' : sv.Tables) (c c' : Uuid) (u u' : String)
          → sv.remove_member tables c u ≡ some tables'
          → is_member tables' c' u'
            ≡ (if (c == c') && (u == u') then false else is_member tables c' u'))
      → (g : GroupMessage) (d : Draws) (w : W) (c : Uuid) (u : String)
      → sv.parse_uuid g.group_id ≡ none
      → d.spare_uuid ≢ c
      → is_member (handle_leave sv database try_send g identity d w).tables c u
        ≡ is_member w.tables c u
  unfolding handle_leave
  leave-keeps-row is_member law g d w c u no_uuid fresh =
      ap (λ t. is_member t c u)
        {y = unwrap_or
          (sv.remove_member w.tables (unwrap_or (sv.parse_uuid g.group_id) d.spare_uuid)
            identity.user_id)
          w.tables}
        (tables-publishes _ _)
      ∙ rw no_uuid (elim (Option-cases (sv.remove_member w.tables d.spare_uuid identity.user_id)) [
        | inl e ↦ rw e refl
        | inr (tables', e) ↦ rw e (
            law w.tables tables' d.spare_uuid c identity.user_id u e
            ∙ rw (==-false d.spare_uuid c fresh))
      ])

  leave-takes-out :
      (g : GroupMessage) (d : Draws) (w : W)
      → is_user_in_group
          (handle_leave sv database try_send g identity d w).registry
          identity.tenant_id
          g.group_id
          identity.user_id
        ≡ false
  unfolding handle_leave
  leave-takes-out g d w =
      ap (λ r. is_user_in_group r identity.tenant_id g.group_id identity.user_id)
        (registry-publishes _ _)
      ∙ is_user_in_group-leave_group w.registry identity.tenant_id g.group_id identity.user_id

  -- Leaving a group whose name is not the UUID of its conversation takes the client out of the group on
  -- this node, but not out of its row in the database: the DELETE goes to a fresh conversation
  -- id, so every membership of any other conversation stays. `is_member` reads the rows, and the
  -- law says what the DELETE removes.
  pub handle_text_message-leave :
      (is_member : sv.Tables → Uuid → String → Bool)
      → ((tables tables' : sv.Tables) (c c' : Uuid) (u u' : String)
          → sv.remove_member tables c u ≡ some tables'
          → is_member tables' c' u'
            ≡ (if (c == c') && (u == u') then false else is_member tables c' u'))
      → (content : String) (g : GroupMessage) (d : Draws) (w w' : W) (c : Uuid) (u : String)
      → sv.parse_group content ≡ some g
      → g.msg_type ≡ leave
      → sv.parse_uuid g.group_id ≡ none
      → d.spare_uuid ≢ c
      → handle_text_message sv database try_send content identity d w ≡ some w'
      → (is_member w'.tables c u ≡ is_member w.tables c u)
        × (is_user_in_group w'.registry identity.tenant_id g.group_id identity.user_id ≡ false)
  unfolding handle_text_message
  handle_text_message-leave is_member law content g d w w' c u p is_leave no_uuid fresh e =
      let left : handle_leave sv database try_send g identity d w ≡ w' = ground arith in
      let tables : w'.tables ≡ (handle_leave sv database try_send g identity d w).tables =
        ap (λ (q : W). q.tables) (sym left) in
      let registry : w'.registry ≡ (handle_leave sv database try_send g identity d w).registry =
        ap (λ (q : W). q.registry) (sym left) in
      (
        ap (λ t. is_member t c u) tables ∙ leave-keeps-row is_member law g d w c u no_uuid fresh,
        ap (λ r. is_user_in_group r identity.tenant_id g.group_id identity.user_id) registry
            ∙ leave-takes-out g d w,
      )
