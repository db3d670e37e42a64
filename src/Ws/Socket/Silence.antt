-- ===== src/Ws/Socket/Silence.antt =====
-- A client that falls silent: the heartbeat ends its connection.
use yappa_core.Common.{
  ℕ, ◌-◌, ◌+◌, ◌<◌, ◌≡◌, refl, Bool, true, some, List, [], ◌∷◌, ◌++◌, map, ltb, arith, Bool-cases,
  inl, inr,
}
use yappa_core.Auth.{Identity}
use yappa_core.Protocol.{Message}
use yappa_core.Connection.{ConnectionId, TrySend}
use yappa_core.Limits.Server.{Redis}
use yappa_core.Limits.{release}
use yappa_core.Db.{Database}
use yappa_core.Ws.{Services, World}
use yappa_core.Ws.Socket.{
  tick, heartbeat_timeout, heartbeat, handle_event, recv_loop, opened, closed_by_guard,
  handle_socket,
}

module _ (sv : Services) (database : Database) {S : Type 0} (try_send : S → Message → TrySend × S)
    (identity : Identity) where
  abbrev V : Type 0
  V = World sv database try_send

  recv_loop-silent :
      (ts : List ℕ) (t last_activity : ℕ) (w : V)
      → last_activity + heartbeat_timeout < t
      → (w' : V) × (recv_loop sv database try_send identity last_activity
            (map tick (ts ++ t ∷ []))
            w
          ≡ some (true, w'))
  unfolding recv_loop handle_event heartbeat
  recv_loop-silent [] t last_activity w late =
      let silent : ltb heartbeat_timeout (t - last_activity) ≡ true = ground arith in
      rw (silent, recv_loop, handle_event, heartbeat) (w, refl)
  recv_loop-silent (u ∷ ts) t last_activity w late =
      elim (Bool-cases (ltb heartbeat_timeout (u - last_activity))) [
        | inl silent ↦ rw (silent, recv_loop, handle_event, heartbeat) (w, refl)
        | inr active ↦
            rw (active, recv_loop, handle_event, heartbeat)
              (recv_loop-silent ts t last_activity _ late)
      ]

  -- A client that sends nothing, so that only the heartbeat ticks, is disconnected: by the first tick that
  -- comes more than 30 seconds after the connection was opened, or by an earlier one, its place in
  -- the limiter is released.
  pub handle_socket-silent :
      (redis : Redis) (reachable : Bool) (c : ConnectionId) (tx : S) (now : ℕ) (ts : List ℕ) (t : ℕ)
      (w : V) (s : redis.Store)
      → now + heartbeat_timeout < t
      → (w' : V) × (handle_socket sv database try_send identity redis reachable c tx now
            (map tick (ts ++ t ∷ []))
            w
            s
          ≡ some (true, w', release redis reachable identity s))
  unfolding handle_socket
  handle_socket-silent redis reachable c tx now ts t w s late =
      let (w', ran) =
        recv_loop-silent ts t now (opened sv database try_send identity c tx w) late in
      rw (ran, handle_socket) (closed_by_guard sv database try_send identity c w', refl)
