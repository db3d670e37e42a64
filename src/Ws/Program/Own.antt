-- ===== src/Ws/Program/Own.antt =====
-- In whose name the accesses of a client's turn are.
use Prim.Native.String.{len}
use yappa_core.Common.{
  string_eq, ℕ, ◌-◌, String, ◌≡◌, refl, subst, Bool, true, false, Option, none, some, ltb,
  Option-cases, Bool-cases, inl, inr,
}
use yappa_core.Auth.{Identity}
use yappa_core.Protocol.{
  ChannelType, dm, group, community, GroupMessageType, join, leave, create, delete, ServerMessage,
  GroupMessage, Message, text, binary, ping, pong, close,
}
use yappa_core.Redis.{publish, publish_grp}
use yappa_core.Ws.Effects.{IsMine, publish-payload, publish_grp-payload}
use yappa_core.Ws.{Services, Draws, WsMessage, max_payload_size}
use yappa_core.Ws.Socket.{
  SocketEvent, frame, recv_error, recv_ended, tick, send_ended, heartbeat_timeout,
}
use yappa_core.Ws.Program.{
  Act, calls, adds_member, removes_member, commands, persists, Program, done, performs, finds,
  upserts, asks, found_program, leave_program, created_program, group_program, dm_program,
  asked_program, by_type_program, chat_program, text_program, frame_program, turn_program,
}

module _ (sv : Services) (i : Identity) where
  -- A command with a message of this identity, tenant and sender.
  abbrev IsOwnCommand : Option (String × String) → Type 0
  IsOwnCommand o =
      (c p : String)
      → o ≡ some (c, p)
      → (m : ServerMessage) × (sv.to_string m ≡ some p)
        × (m.tenant_id ≡ i.tenant_id)
        × (m.sender_id ≡ i.user_id)

  group-IsOwnCommand :
      (g : String) (m : ServerMessage)
      → m.tenant_id ≡ i.tenant_id
      → m.sender_id ≡ i.user_id
      → IsOwnCommand (publish_grp sv.to_string g m)
  group-IsOwnCommand g m t s c p e = (m, publish_grp-payload sv g m c p e, t, s)

  user-IsOwnCommand :
      (u : String) (m : ServerMessage)
      → m.tenant_id ≡ i.tenant_id
      → m.sender_id ≡ i.user_id
      → IsOwnCommand (publish sv.to_string u m)
  user-IsOwnCommand u m t s c p e = (m, publish-payload sv u m c p e, t, s)

module _ (sv : Services) {S : Type 0} (i : Identity) where
  abbrev pub IsOwnAct : Act S → Type 0
  IsOwnAct (calls c) = IsMine i c
  IsOwnAct (adds_member conversation_id t u) = (t ≡ i.tenant_id) × (u ≡ i.user_id)
  IsOwnAct (removes_member conversation_id u) = u ≡ i.user_id
  IsOwnAct (commands o) = IsOwnCommand sv i o
  IsOwnAct (persists m) = (m.tenant_id ≡ i.tenant_id) × (m.sender_id ≡ i.user_id)

  -- Whatever the statements and the registry answer, each access is the client's own.
  abbrev pub IsOwn : Program S → Type 0
  IsOwn done = Unit
  IsOwn (performs a p) = IsOwnAct a × IsOwn p
  IsOwn (finds t g k) = (o : _) → IsOwn (k o)
  IsOwn (upserts wanted t g u k) = (t ≡ i.tenant_id) × (u ≡ i.user_id) × ((o : _) → IsOwn (k o))
  IsOwn (asks t g u k) = (b : Bool) → IsOwn (k b)

module _ (sv : Services) (S : Type 0) (i : Identity) where
  found_program-IsOwn :
      (g : GroupMessage) (d : Draws) (o : _) → IsOwn sv i (found_program sv S g i d o)
  unfolding found_program
  found_program-IsOwn g d none = tt
  found_program-IsOwn g d (some c) =
      ((refl, refl), (refl, (group-IsOwnCommand sv i g.group_id _ refl refl, tt)))

  created_program-IsOwn :
      (g : GroupMessage) (d : Draws) (o : _) → IsOwn sv i (created_program sv S g i d o)
  unfolding created_program
  created_program-IsOwn g d none = tt
  created_program-IsOwn g d (some c) =
      ((refl, refl), (refl, (refl, (group-IsOwnCommand sv i g.group_id _ refl refl, tt))))

  group_program-IsOwn :
      (gt : GroupMessageType) (g : GroupMessage) (d : Draws)
      → IsOwn sv i (group_program sv S gt g i d)
  unfolding group_program leave_program
  group_program-IsOwn join g d = found_program-IsOwn g d
  group_program-IsOwn leave g d =
      (refl, (refl, (group-IsOwnCommand sv i g.group_id _ refl refl, tt)))
  group_program-IsOwn create g d = (refl, refl, created_program-IsOwn g d)
  group_program-IsOwn delete g d = (refl, tt)

  asked_program-IsOwn :
      (payload : WsMessage) (d : Draws) (b : Bool) → IsOwn sv i (asked_program sv S payload i d b)
  unfolding asked_program
  asked_program-IsOwn payload d true =
      (group-IsOwnCommand sv i payload.user_id _ refl refl, ((refl, refl), tt))
  asked_program-IsOwn payload d false = ((refl, inr (inr refl)), tt)

  by_type_program-IsOwn :
      (ct : ChannelType) (payload : WsMessage) (d : Draws)
      → IsOwn sv i (by_type_program sv S ct payload i d)
  unfolding by_type_program dm_program
  by_type_program-IsOwn dm payload d = (
    user-IsOwnCommand sv i payload.user_id _ refl refl,
    (user-IsOwnCommand sv i i.user_id _ refl refl, ((refl, refl), tt)),
  )
  by_type_program-IsOwn group payload d = asked_program-IsOwn payload d
  by_type_program-IsOwn community payload d = asked_program-IsOwn payload d

  chat_program-IsOwn :
      (payload : WsMessage) (d : Draws) → IsOwn sv i (chat_program sv S payload i d)
  unfolding chat_program
  chat_program-IsOwn payload d = elim (Bool-cases (ltb max_payload_size (len payload.content))) [
    | inl e ↦ rw (e, chat_program) ((refl, inr (inl refl)), tt)
    | inr e ↦ rw (e, chat_program) (by_type_program-IsOwn payload.channel_type payload d)
  ]

  pub text_program-IsOwn :
      (content : String) (d : Draws) → IsOwn sv i (text_program sv S content i d)
  unfolding text_program
  text_program-IsOwn content d = elim (Option-cases (sv.parse_group content)) [
    | inr (g, e) ↦ rw (e, text_program) (group_program-IsOwn g.msg_type g d)
    | inl e ↦ elim (Option-cases (sv.parse_ws content)) [
      | inr (payload, e') ↦ rw (e, e', text_program) (chat_program-IsOwn payload d)
      | inl e' ↦ rw (e, e', text_program) tt
    ]
  ]

  abbrev pub IsOwnTurn : Option (ℕ × Program S) → Type 0
  IsOwnTurn none = Unit
  IsOwnTurn (some (last_activity, p)) = IsOwn sv i p

  frame_program-IsOwn :
      (now : ℕ) (d : Draws) (m : Message) → IsOwnTurn (frame_program sv S i now d m)
  unfolding frame_program
  frame_program-IsOwn now d (text content) = text_program-IsOwn content d
  frame_program-IsOwn now d binary = tt
  frame_program-IsOwn now d ping = tt
  frame_program-IsOwn now d pong = tt
  frame_program-IsOwn now d close = tt

  pub turn_program-IsOwnTurn :
      (last_activity : ℕ) (e : SocketEvent) → IsOwnTurn (turn_program sv S i last_activity e)
  unfolding turn_program
  turn_program-IsOwnTurn last_activity (frame now d m) = frame_program-IsOwn now d m
  turn_program-IsOwnTurn last_activity recv_error = tt
  turn_program-IsOwnTurn last_activity recv_ended = tt
  turn_program-IsOwnTurn last_activity (tick now) =
      elim (Bool-cases (ltb heartbeat_timeout (now - last_activity))) [
        | inl e ↦ rw (e, turn_program) tt
        | inr e ↦ rw (e, turn_program) ((refl, inl refl), tt)
      ]
  turn_program-IsOwnTurn last_activity send_ended = tt

  pub turn_program-IsOwn :
      (last_activity last_activity' : ℕ) (e : SocketEvent) (p : Program S)
      → turn_program sv S i last_activity e ≡ some (last_activity', p)
      → IsOwn sv i p
  turn_program-IsOwn last_activity last_activity' e p h =
      subst IsOwnTurn h (turn_program-IsOwnTurn last_activity e)
