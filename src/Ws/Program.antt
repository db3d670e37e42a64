-- ===== src/Ws/Program.antt =====
-- src/server/ws.rs, a turn of the receive loop as its awaits cut it: `handle_text_message`, the
-- heartbeat, and `persist_message`, one access to what is shared after another.
--
-- A `Program` is what is left of a turn. Each step of it is one call of the registry, one statement at the
-- group tables, one publish, or one `persist_message`; what other tasks do comes in between. `resume` does
-- the next step, where an `Outcome` tells whether what is at the other end answers, fails, or does what it is asked
-- and its answer is lost; an await that hangs is a step that is not taken. `finish` does all steps, answered,
-- with nothing in between.
pub mod Same
pub mod Own
pub mod Moves
use Prim.Native.String.{len}
use yappa_core.Common.{
  ◌>>=◌, string_eq, ℕ, ◌-◌, Uuid, String, Bool, Option, none, some, ltb, unwrap_or, ◌<>◌,
  if◌then◌else◌,
}
use yappa_core.Auth.{Identity}
use yappa_core.Protocol.{
  ChannelType, dm, group, community, GroupMessageType, join, leave, create, delete, ServerMessage,
  GroupMessage, Message, text, binary, ping, pong, close, generate_dm_conversation_id,
}
use yappa_core.Connection.{TrySend, is_user_in_group}
use yappa_core.Connection.Spec.{Call, joins, leaves, creates, deletes, sends_to_user, apply}
use yappa_core.Redis.{publish, publish_grp}
use yappa_core.Db.{Database}
use yappa_core.Ws.{
  Services, Draws, World, WsMessage, max_payload_size, publishes, server_message, persist_message,
}
use yappa_core.Ws.Socket.{
  SocketEvent, frame, recv_error, recv_ended, tick, send_ended, heartbeat_timeout,
}

-- One access to what is shared. `commands` hands over what `publish` or `publish_grp` made.
pub data Act (S : Type 0) : Type 0 where
  calls : Call S Message → Act S
  adds_member : Uuid → String → String → Act S
  removes_member : Uuid → String → Act S
  commands : Option (String × String) → Act S
  persists : ServerMessage → Act S

-- An access to another process is answered; or it has failed, and has done nothing; or it has been done, and the
-- answer is lost, which the code sees as an error too.
pub data Outcome : Type 0 where
  answered failed lost : Outcome

-- `finds` and `upserts` go on with the statement's answer, `asks` with that of `is_user_in_group`.
pub data Program (S : Type 0) : Type 0 where
  done : Program S
  performs : Act S → Program S → Program S
  finds : String → String → (Option Uuid → Program S) → Program S
  upserts : Uuid → String → String → String → (Option Uuid → Program S) → Program S
  asks : String → String → String → (Bool → Program S) → Program S

module _ (sv : Services) (S : Type 0) where
  open sv use {parse_group, parse_ws, to_string, parse_uuid, sha256, from_slice}

  abbrev P : Type 0
  P = Program S

  pub found_program : GroupMessage → Identity → Draws → Option Uuid → P
  found_program g identity d none = done
  found_program g identity d (some conversation_id) =
      let server_msg =
        server_message "group_join" identity d group g.group_id conversation_id
          (identity.user_id <> " has joined the group") in
      performs (adds_member conversation_id identity.tenant_id identity.user_id) (
        performs (calls (joins identity.tenant_id g.group_id identity.user_id))
          (performs (commands (publish_grp to_string g.group_id server_msg)) done))

  pub leave_program : GroupMessage → Identity → Draws → P
  leave_program g identity d =
      let conversation_id = unwrap_or (parse_uuid g.group_id) d.spare_uuid in
      let server_msg =
        server_message "group_leave" identity d group g.group_id conversation_id
          (identity.user_id <> " has left the group") in
      performs (removes_member conversation_id identity.user_id) (
        performs (calls (leaves identity.tenant_id g.group_id identity.user_id))
          (performs (commands (publish_grp to_string g.group_id server_msg)) done))

  pub created_program : GroupMessage → Identity → Draws → Option Uuid → P
  created_program g identity d none = done
  created_program g identity d (some conversation_id) =
      let server_msg =
        server_message "group_created" identity d group g.group_id conversation_id
          ("Group " <> g.group_id <> " created by " <> identity.user_id) in
      performs (adds_member conversation_id identity.tenant_id identity.user_id) (
        performs (calls (creates identity.tenant_id g.group_id)) (
          performs (calls (joins identity.tenant_id g.group_id identity.user_id))
            (performs (commands (publish_grp to_string g.group_id server_msg)) done)))

  pub group_program : GroupMessageType → GroupMessage → Identity → Draws → P
  unfolding found_program leave_program created_program
  group_program join g identity d = finds identity.tenant_id g.group_id (found_program g identity d)
  group_program leave g identity d = leave_program g identity d
  group_program create g identity d =
      let wanted = unwrap_or (parse_uuid g.group_id) d.spare_uuid in
      upserts wanted identity.tenant_id g.group_id identity.user_id (created_program g identity d)
  group_program delete g identity d = performs (calls (deletes identity.tenant_id g.group_id)) done

  abbrev pub answer_program : Identity → String → P
  answer_program identity reply =
      performs (calls (sends_to_user identity.tenant_id identity.user_id (text reply))) done

  pub dm_program : WsMessage → Identity → Draws → P
  dm_program payload identity d =
      let conversation_id =
        generate_dm_conversation_id sha256 from_slice identity.user_id payload.user_id
          d.spare_uuid in
      let server_msg =
        server_message "chat" identity d payload.channel_type payload.user_id conversation_id
          payload.content in
      performs (commands (publish to_string payload.user_id server_msg)) (
        performs (commands (publish to_string identity.user_id server_msg))
          (performs (persists server_msg) done))

  pub asked_program : WsMessage → Identity → Draws → Bool → P
  asked_program payload identity d inside =
      let conversation_id = unwrap_or (parse_uuid payload.user_id) d.spare_uuid in
      let server_msg =
        server_message "chat" identity d payload.channel_type payload.user_id conversation_id
          payload.content in
      if inside
      then performs (commands (publish_grp to_string payload.user_id server_msg))
          (performs (persists server_msg) done)
      else answer_program identity "You must join the group before sending messages"

  pub by_type_program : ChannelType → WsMessage → Identity → Draws → P
  unfolding dm_program asked_program
  by_type_program dm payload identity d = dm_program payload identity d
  by_type_program group payload identity d =
      asks identity.tenant_id payload.user_id identity.user_id (asked_program payload identity d)
  by_type_program community payload identity d =
      asks identity.tenant_id payload.user_id identity.user_id (asked_program payload identity d)

  pub chat_program : WsMessage → Identity → Draws → P
  unfolding by_type_program
  chat_program payload identity d =
      if ltb max_payload_size (len payload.content)
      then answer_program identity "Payload too large"
      else by_type_program payload.channel_type payload identity d

  unfoldable pub text_program : String → Identity → Draws → P
  unfolding group_program chat_program
  text_program content identity d = elim (parse_group content) [
    | some g ↦ group_program g.msg_type g identity d
    | none ↦ elim (parse_ws content) [
      | some payload ↦ chat_program payload identity d
      | none ↦ done
    ]
  ]

  pub frame_program : Identity → ℕ → Draws → Message → Option (ℕ × P)
  unfolding text_program
  frame_program identity now d (text content) = some (now, text_program content identity d)
  frame_program identity now d binary = some (now, done)
  frame_program identity now d ping = some (now, done)
  frame_program identity now d pong = some (now, done)
  frame_program identity now d close = none

  -- What an event leaves to do, with the last activity; `none` ends the loop.
  unfoldable pub turn_program : Identity → ℕ → SocketEvent → Option (ℕ × P)
  unfolding frame_program
  turn_program identity last_activity (frame now d message) = frame_program identity now d message
  turn_program identity last_activity recv_error = none
  turn_program identity last_activity recv_ended = none
  turn_program identity last_activity (tick now) =
      if ltb heartbeat_timeout (now - last_activity)
      then none
      else some (
        last_activity,
        performs (calls (sends_to_user identity.tenant_id identity.user_id ping)) done,
      )
  turn_program identity last_activity send_ended = none

module _ (sv : Services) (database : Database) {S : Type 0}
    (try_send : S → Message → TrySend × S) where
  abbrev W : Type 0
  W = World sv database try_send

  -- `none` is a panic, which `persist_message` could give.
  pub perform : Act S → W → Option W
  unfolding apply persist_message
  perform (calls c) w = some (record w { registry = apply try_send w.registry c })
  perform (adds_member conversation_id t u) w =
      some (record w { tables = unwrap_or (sv.add_member w.tables conversation_id t u) w.tables })
  perform (removes_member conversation_id u) w =
      some (record w { tables = unwrap_or (sv.remove_member w.tables conversation_id u) w.tables })
  perform (commands command) w = some (publishes sv database try_send w command)
  perform (persists m) w = persist_message sv database try_send w m

  -- These accesses go on after an error as after an answer; a call of the node's own registry has none.
  pub attempt : Outcome → Act S → W → Option W
  unfolding perform apply
  attempt answered a w = perform a w
  attempt lost a w = perform a w
  attempt failed (calls c) w = perform (calls c) w
  attempt failed (adds_member conversation_id t u) w = some w
  attempt failed (removes_member conversation_id u) w = some w
  attempt failed (commands command) w = some w
  attempt failed (persists m) w = some w

  -- An upsert's answer, and the tables after it.
  pub upserted : Outcome → (Option Uuid → Program S) → W → Option (Uuid × sv.Tables) → Program S × W
  upserted answered k w (some (conversation_id, tables')) =
      (k (some conversation_id), record w { tables = tables' })
  upserted lost k w (some (conversation_id, tables')) = (k none, record w { tables = tables' })
  upserted failed k w (some (conversation_id, tables')) = (k none, w)
  upserted outcome k w none = (k none, w)

  -- What a query gives.
  pub found : Outcome → Option Uuid → Option Uuid
  found answered o = o
  found failed o = none
  found lost o = none

  unfoldable pub resume : Outcome → Program S → W → Option (Program S × W)
  unfolding attempt upserted found
  resume outcome done w = some (done, w)
  resume outcome (performs a p) w = do w' ← attempt outcome a w; some (p, w')
  resume outcome (finds t g k) w = some (k (found outcome (sv.find_group w.tables t g)), w)
  resume outcome (upserts wanted t g u k) w =
      some (upserted outcome k w (sv.upsert_group w.tables wanted t g u))
  resume outcome (asks t g u k) w = some (k (is_user_in_group w.registry t g u), w)

  unfoldable pub finish : Program S → W → Option W
  unfolding perform
  finish done w = some w
  finish (performs a p) w = do w' ← perform a w; finish p w'
  finish (finds t g k) w = finish (k (sv.find_group w.tables t g)) w
  finish (upserts wanted t g u k) w = elim (sv.upsert_group w.tables wanted t g u) [
    | none ↦ finish (k none) w
    | some (conversation_id, tables') ↦
        finish (k (some conversation_id)) (record w { tables = tables' })
  ]
  finish (asks t g u k) w = finish (k (is_user_in_group w.registry t g u)) w
