-- ===== src/Ws/Socket.antt =====
-- src/server/ws.rs, `handle_socket`: the life of a connection on its node.
--
-- An event is the arm that the receive task's `select!` takes, with the time of the monotonic clock in
-- nanoseconds; `send_ended` is the end of the send task, upon which the receive task is aborted. An abort
-- during the handling of a text is left out here, where a text is handled in one step; Ws.Program and Cluster
-- have it. Ws.Socket.Send has the send task. `tx` is the channel's sending end, `connection_id` the UUID
-- drawn for it. The guard's release runs last, as a task of its own.
pub mod Life
pub mod Silence
pub mod Send
mod Tests
use yappa_core.Common.{
  ◌>>=◌, ℕ, ◌-◌, String, Bool, true, false, Option, none, some, List, [], ◌∷◌, ltb, if◌then◌else◌,
}
use yappa_core.Auth.{Identity}
use yappa_core.Protocol.{Message, text, binary, ping, pong, close}
use yappa_core.Connection.{
  ConnectionRegistry, ConnectionId, TrySend, register, join_group, unregister, send_msg_to_user,
}
use yappa_core.Limits.Server.{Redis}
use yappa_core.Limits.{release}
use yappa_core.Db.{Database}
use yappa_core.Ws.{Services, Draws, World, handle_text_message}

abbrev pub heartbeat_timeout : ℕ
heartbeat_timeout = 30000000000

-- `receiver.next()` with a frame, an error or the end, a tick of the heartbeat, or the send task's end.
pub data SocketEvent : Type 0 where
  frame : ℕ → Draws → Message → SocketEvent
  recv_error recv_ended : SocketEvent
  tick : ℕ → SocketEvent
  send_ended : SocketEvent

module _ (sv : Services) (database : Database) {S : Type 0} (try_send : S → Message → TrySend × S)
    (identity : Identity) where
  abbrev pub W : Type 0
  W = World sv database try_send

  -- After an event: the world, and the last activity if the loop goes on. `none` is a panic.
  abbrev pub Turn : Type 0
  Turn = W × Option ℕ

  unfoldable pub handle_frame : ℕ → Draws → Message → W → Option Turn
  handle_frame now d (text content) w = do
    w' ← handle_text_message sv database try_send content identity d w
    some (w', some now)
  handle_frame now d binary w = some (w, some now)
  handle_frame now d ping w = some (w, some now)
  handle_frame now d pong w = some (w, some now)
  handle_frame now d close w = some (w, none)

  unfoldable pub heartbeat : ℕ → ℕ → W → Turn
  heartbeat now last_activity w =
      if ltb heartbeat_timeout (now - last_activity) then (w, none) else (
        record w {
          registry = send_msg_to_user try_send w.registry identity.tenant_id identity.user_id ping;
        },
        some last_activity,
      )

  unfoldable pub handle_event : ℕ → SocketEvent → W → Option Turn
  unfolding handle_frame heartbeat
  handle_event last_activity (frame now d message) w = handle_frame now d message w
  handle_event last_activity recv_error w = some (w, none)
  handle_event last_activity recv_ended w = some (w, none)
  handle_event last_activity (tick now) w = some (heartbeat now last_activity w)
  handle_event last_activity send_ended w = some (w, none)

  -- On to the next event, or out of the loop.
  abbrev pub next : (ℕ → W → Option (Bool × W)) → Turn → Option (Bool × W)
  next rest (w', none) = some (true, w')
  next rest (w', some now) = rest now w'

  -- Whether the loop has ended, and the world then, or where the events leave it.
  pub recv_loop : ℕ → List SocketEvent → W → Option (Bool × W)
  recv_loop last_activity [] w = some (false, w)
  recv_loop last_activity (e ∷ events) w =
      let rest = λ (now : ℕ) (w' : W). recv_loop now events w' in
      handle_event last_activity e w >>= next rest

  -- Before the loop: the connection and the group "general".
  unfoldable pub opened : ConnectionId → S → W → W
  opened connection_id tx w = record w {
    registry =
        join_group (register w.registry identity connection_id tx) identity.tenant_id "general"
          identity.user_id;
  }

  -- The guard's `drop`, without its release.
  pub closed_by_guard : ConnectionId → W → W
  closed_by_guard connection_id w = record w {
    registry = unregister w.registry identity connection_id;
  }

  -- Whether the connection has ended, and the world and the limiter's data then, or so far.
  unfoldable pub handle_socket :
      (redis : Redis)
      → Bool
      → ConnectionId
      → S
      → ℕ
      → List SocketEvent
      → W
      → redis.Store
      → Option (Bool × W × redis.Store)
  unfolding recv_loop opened closed_by_guard
  handle_socket redis reachable connection_id tx now events w s = do
    (ended, w') ← recv_loop now events (opened connection_id tx w)
    some (
        if ended
        then (true, closed_by_guard connection_id w', release redis reachable identity s)
        else (false, w', s))
