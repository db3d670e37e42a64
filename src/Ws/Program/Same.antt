-- ===== src/Ws/Program/Same.antt =====
-- Turns cut at their awaits, beside the handler's and the receive loop's own turns.
use Prim.Native.String.{len}
use yappa_core.Common.{
  ◌>>=◌, string_eq, ℕ, ◌-◌, String, ◌≡◌, refl, ap, Option, none, some, ltb, unwrap_or, Option-cases,
  Bool-cases, inl, inr,
}
use yappa_core.Auth.{Identity}
use yappa_core.Protocol.{
  ChannelType, dm, group, community, GroupMessageType, join, leave, create, delete, ServerMessage,
  GroupMessage, Message, text, binary, ping, pong, close,
}
use yappa_core.Connection.{TrySend, is_user_in_group}
use yappa_core.Connection.Spec.{apply}
use yappa_core.Db.{Database}
use yappa_core.Ws.Persist.{persist_message_lem}
use yappa_core.Ws.{
  Services, Draws, World, WsMessage, max_payload_size, handle_join, handle_leave, handle_create,
  handle_delete, handle_group, answer, handle_dm, handle_group_chat, handle_by_type, handle_chat,
  handle_text_message, persist_message,
}
use yappa_core.Ws.Socket.{
  SocketEvent, frame, recv_error, recv_ended, tick, send_ended, heartbeat_timeout, handle_frame,
  heartbeat, handle_event,
}
use yappa_core.Ws.Program.{
  answered, upserted, Act, persists, Program, done, performs, finds, upserts, asks, found_program,
  leave_program, created_program, group_program, dm_program, asked_program, by_type_program,
  chat_program, text_program, frame_program, turn_program, attempt, perform, resume, finish,
}

module _ (sv : Services) (database : Database) {S : Type 0}
    (try_send : S → Message → TrySend × S) where
  abbrev W : Type 0
  W = World sv database try_send

  abbrev F : Program S → W → Option W
  F p w = finish sv database try_send p w

  persists-finish :
      (m : ServerMessage) (w : W)
      → F (performs (persists m) done) w ≡ persist_message sv database try_send w m
  unfolding finish perform
  persists-finish m w = rw (persist_message_lem sv database try_send w m, finish) refl

  finish-group_program :
      (gt : GroupMessageType) (g : GroupMessage) (i : Identity) (d : Draws) (w : W)
      → F (group_program sv S gt g i d) w ≡ some (handle_group sv database try_send gt g i d w)
  unfolding group_program handle_group finish perform apply found_program leave_program
      created_program handle_join handle_leave handle_create handle_delete
  finish-group_program join g i d w =
      elim (Option-cases (sv.find_group w.tables i.tenant_id g.group_id)) [
        | inl e ↦ rw (e, group_program, handle_group, handle_join, finish, found_program) refl
        | inr (c, e) ↦ rw (e, group_program, handle_group, handle_join, finish, found_program) refl
      ]
  finish-group_program leave g i d w = refl
  finish-group_program create g i d w =
      elim (Option-cases (
        sv.upsert_group w.tables (unwrap_or (sv.parse_uuid g.group_id) d.spare_uuid) i.tenant_id
          g.group_id i.user_id)) [
            | inl e ↦
                rw (e, group_program, handle_group, handle_create, finish, created_program) refl
            | inr (c, e) ↦
                rw (e, group_program, handle_group, handle_create, finish, created_program) refl
          ]
  finish-group_program delete g i d w = refl

  finish-asked :
      (payload : WsMessage) (i : Identity) (d : Draws) (w : W)
      → F
          (asked_program sv S payload i d
            (is_user_in_group w.registry i.tenant_id payload.user_id i.user_id))
          w
        ≡ handle_group_chat sv database try_send payload i d w
  unfolding asked_program handle_group_chat finish perform apply answer
  finish-asked payload i d w =
      elim (Bool-cases (is_user_in_group w.registry i.tenant_id payload.user_id i.user_id)) [
        | inl e ↦ rw (e, handle_group_chat) (persists-finish _ _)
        | inr e ↦ rw (e, handle_group_chat) refl
      ]

  finish-by_type :
      (ct : ChannelType) (payload : WsMessage) (i : Identity) (d : Draws) (w : W)
      → F (by_type_program sv S ct payload i d) w
        ≡ handle_by_type sv database try_send ct payload i d w
  unfolding by_type_program handle_by_type dm_program handle_dm finish perform
  finish-by_type dm payload i d w = persists-finish _ _
  finish-by_type group payload i d w = finish-asked payload i d w
  finish-by_type community payload i d w = finish-asked payload i d w

  finish-chat_program :
      (payload : WsMessage) (i : Identity) (d : Draws) (w : W)
      → F (chat_program sv S payload i d) w ≡ handle_chat sv database try_send payload i d w
  unfolding chat_program handle_chat finish perform apply answer
  finish-chat_program payload i d w =
      elim (Bool-cases (ltb max_payload_size (len payload.content))) [
        | inl e ↦ rw (e, handle_chat) refl
        | inr e ↦ rw (e, handle_chat) (finish-by_type payload.channel_type payload i d w)
      ]

  pub finish-text_program :
      (content : String) (i : Identity) (d : Draws) (w : W)
      → F (text_program sv S content i d) w ≡ handle_text_message sv database try_send content i d w
  unfolding text_program handle_text_message finish
  finish-text_program content i d w = elim (Option-cases (sv.parse_group content)) [
    | inr (g, e) ↦
        rw (e, text_program, handle_text_message) (finish-group_program g.msg_type g i d w)
    | inl e ↦ elim (Option-cases (sv.parse_ws content)) [
      | inr (payload, e') ↦
          rw (e, e', text_program, handle_text_message) (finish-chat_program payload i d w)
      | inl e' ↦ rw (e, e', text_program, handle_text_message) refl
    ]
  ]

  -- All that a turn leaves to do, done at once.
  abbrev pub finish_turn : Option (ℕ × Program S) → W → Option (W × Option ℕ)
  finish_turn none w = some (w, none)
  finish_turn (some (last_activity, p)) w = do w' ← F p w; some (w', some last_activity)

  finish-frame_program :
      (i : Identity) (now : ℕ) (d : Draws) (m : Message) (w : W)
      → finish_turn (frame_program sv S i now d m) w ≡ handle_frame sv database try_send i now d m w
  unfolding frame_program handle_frame finish
  finish-frame_program i now d (text content) w =
      ap (λ (o : Option W). o >>= λ (w' : W). some (w', some now))
        (finish-text_program content i d w)
  finish-frame_program i now d binary w = refl
  finish-frame_program i now d ping w = refl
  finish-frame_program i now d pong w = refl
  finish-frame_program i now d close w = refl

  -- Whatever event a receive loop gets: the accesses that its turn is cut into, one after another with nothing
  -- in between and no error at the other end, leave the world and the last activity that the loop's
  -- turn leaves, and the turn ends the loop where the cut turn does.
  pub finish-turn_program :
      (i : Identity) (last_activity : ℕ) (e : SocketEvent) (w : W)
      → finish_turn (turn_program sv S i last_activity e) w
        ≡ handle_event sv database try_send i last_activity e w
  unfolding turn_program handle_event finish perform apply heartbeat
  finish-turn_program i last_activity (frame now d m) w = finish-frame_program i now d m w
  finish-turn_program i last_activity recv_error w = refl
  finish-turn_program i last_activity recv_ended w = refl
  finish-turn_program i last_activity (tick now) w =
      elim (Bool-cases (ltb heartbeat_timeout (now - last_activity))) [
        | inl e ↦ rw (e, heartbeat) refl
        | inr e ↦ rw (e, heartbeat) refl
      ]
  finish-turn_program i last_activity send_ended w = refl

  attempt-perform :
      (a : Act S) (w : W)
      → attempt sv database try_send answered a w ≡ perform sv database try_send a w
  unfolding attempt
  attempt-perform a w = refl

  -- One step where the other ends answer, and then the rest.
  abbrev pub rest_of : Option (Program S × W) → Option W
  rest_of none = none
  rest_of (some (p, w)) = F p w

  resumed_and_rest :
      (p : Program S) (o : Option W)
      → (o >>= λ (w' : W). F p w')
        ≡ rest_of (◌>>=◌ {B = Program S × W} o (λ (w' : W). some (p, w')))
  resumed_and_rest p none = refl
  resumed_and_rest p (some w') = refl

  -- Whatever is left of a turn: one step of it where the other ends answer, and then all the rest at once, is
  -- all of it at once.
  pub finish-resume :
      (p : Program S) (w : W) → F p w ≡ rest_of (resume sv database try_send answered p w)
  unfolding finish resume upserted
  finish-resume done w = refl
  finish-resume (performs a p) w = rw (attempt-perform a w, resume, finish) (resumed_and_rest p _)
  finish-resume (finds t g k) w = refl
  finish-resume (upserts wanted t g u k) w =
      elim (Option-cases (sv.upsert_group w.tables wanted t g u)) [
        | inl e ↦ rw (e, finish, resume) refl
        | inr (c, e) ↦ rw (e, finish, resume) refl
      ]
  finish-resume (asks t g u k) w = refl
