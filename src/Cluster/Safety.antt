-- ===== src/Cluster/Safety.antt =====
-- What no interleaving of the nodes can break.
use yappa_core.Common.{ℕ, String, ◌≡◌, true, some, Every, Every-map, Any, Any-both}
use yappa_core.Connection.{ConnectionId}
use yappa_core.Connection.Contents.{is_held}
use yappa_core.Connection.Spec.{channel_of}
use yappa_core.Cluster.{Environment, Socket, Cluster, Reach}
use yappa_core.Cluster.Invariant.{IsAuthentic, IsPermitted, IsSocketOf}
use yappa_core.Common.{List}
use yappa_core.Ws.Socket.Send.{Write, send_task, Every-send_task}
use yappa_core.Cluster.Steps.{Reach-IsSafe}

module _ (env : Environment) (max_users : ℕ) where
  -- In every cluster that can come about, whatever clients send and however handshakes, the accesses that their
  -- turns make, failures of these, aborts, listeners and send tasks interleave, each frame that waits for a
  -- connection of a tenant is a ping, one of the two refusals, or the text of a message of that very
  -- tenant whose tenant and sender are those of a valid token; and so is each frame that its send
  -- task writes to the socket.
  pub queued-IsPermitted :
      {c : Cluster env max_users}
      → Reach env max_users c
      → (n : ℕ) (t u : String) (k : ConnectionId) (s : env.S)
      → channel_of (c.nodes n) t u k ≡ some s
      → Every (IsPermitted env max_users t) (env.queued s)
        × ((writes : List Write)
            → Every (IsPermitted env max_users t) (send_task (env.queued s) writes).0)
  queued-IsPermitted r n t u k s h =
      let waiting = ((Reach-IsSafe env max_users r).sound n).clean t u k s h in
      (
        waiting,
        λ writes. Every-send_task (IsPermitted env max_users t) (env.queued s) writes waiting,
      )

  -- In every cluster that can come about, a connection that is registered on a node is that of a socket on that
  -- node whose guard has not run, and the tenant and user that it is registered for are those of a valid
  -- token: however turns are cut off and whatever goes on after an abort, no connection outlives its
  -- guard.
  pub held-IsSocketOf :
      {c : Cluster env max_users}
      → Reach env max_users c
      → (n : ℕ) (t u : String) (k : ConnectionId) → is_held env.try_send (c.nodes n) t u k ≡ true
      → Any
          (λ (x : Socket env.S).
            IsSocketOf env max_users n t u k x × IsAuthentic env max_users x.identity)
          c.sockets
  held-IsSocketOf {c} r n t u k h =
      let safe = Reach-IsSafe env max_users r in
      Any-both (λ (x : Socket env.S). IsAuthentic env max_users x.identity)
        (IsSocketOf env max_users n t u k) c.sockets
        (Every-map (λ x (auth, own). auth) c.sockets safe.genuine) ((safe.sound n).held t u k h)
