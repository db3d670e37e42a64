-- ===== src/Cluster.antt =====
-- Several nodes with one database and one Redis server: the interleavings of handshakes, of all accesses that
-- the turns of all connections make, of the listeners and of the send tasks. It composes src/app.rs
-- (`AppState`), src/server/ws.rs and src/redis/mod.rs.
--
-- A socket's phases are those of `handle_socket`, and a step is one access to what tasks share. An upgrade that
-- fails leaves its socket admitted for good. The guard may run in the middle of a turn, since the
-- receive task is aborted when the send task ends; the task notices an abort at an await only, so what is
-- left of its turn may go on for a while, and further turns with it, which is taken to be any while. An await
-- that hangs is a step that is not taken. The guard's `remove` is two steps,
-- with the drop of an empty tenant as the second, as Connection.Race has it. Redis may hand a published
-- payload to any node, late, twice or never, which is more than it does. A step of a send task takes
-- frames from the front of a channel.
pub mod Invariant
pub mod Heard
pub mod Changes
pub mod Sockets
pub mod Steps
pub mod Safety
pub mod Places
pub mod Cap
pub mod Drained
pub mod Produced
pub mod Consumed
pub mod Sample
mod Tests
use yappa_core.Common.{
  nat_eq, ℕ, String, Bool, Option, none, some, List, [], ◌∷◌, ◌++◌, ◌≡◌, ◌==◌, if◌then◌else◌,
}
use mathlib.Core.List.{Memᴰ}
use yappa_core.Auth.{Identity, Claims}
use yappa_core.Protocol.{ServerMessage, Message}
use yappa_core.Connection.{
  ConnectionRegistry, ConnectionId, TrySend, empty, register, remove_connection, drop_tenant,
  join_group,
}
use yappa_core.Connection.Contents.{queue_after}
use yappa_core.Connection.Spec.{channel_of}
use yappa_core.Limits.Server.{Redis}
use yappa_core.Limits.{release}
use yappa_core.Redis.{receive}
use yappa_core.Db.{Database}
use yappa_core.Ws.{Services, World}
use yappa_core.Ws.Upgrade.{Response, unauthorized, too_many_requests, upgraded, ws_handler}
use yappa_core.Ws.Socket.{SocketEvent}
use yappa_core.Ws.Program.{Program, done, Outcome, turn_program, resume}

-- What the nodes call. `queued` reads what waits in a channel, and `queued_lem` is tokio's contract of
-- `try_send`; `from_str_lem` is serde's, that a message is read back from what it is written as.
pub record Environment : Type 1 where
  pub sv : Services
  pub database : Database
  pub redis : Redis
  pub S : Type 0
  pub try_send : S → Message → TrySend × S
  pub queued : S → List Message
  pub queued_lem :
      (s : S) (m : Message) → queued (try_send s m).1 ≡ queue_after (try_send s m).0 (queued s) m
  pub decode : String → Option Claims
  pub from_str : String → Option ServerMessage
  pub from_str_lem :
      (m : ServerMessage) (p : String) → sv.to_string m ≡ some p → from_str p ≡ some m

-- Where the connection's task is: let in but not yet upgraded; in the registry; in the receive loop, with its last
-- activity and what is left of the current turn; in the guard's `remove`, with whether its tenant was found empty;
-- taken out; and after the limiter's release. The last three keep what is left of the current turn too.
pub data Phase (S : Type 0) : Type 0 where
  admitted : Phase S
  registered : ConnectionId → Phase S
  running : ConnectionId → ℕ → Program S → Phase S
  removing : Bool → Program S → Phase S
  removed released : Program S → Phase S

-- A connection that a handshake let in.
pub record Socket (S : Type 0) : Type 0 where
  pub node : ℕ
  pub identity : Identity
  pub phase : Phase S

-- What is left of the turn.
abbrev pub pending : {S : Type 0} → Phase S → Program S
pending admitted = done
pending (registered k) = done
pending (running k last_activity p) = p
pending (removing b p) = p
pending (removed p) = p
pending (released p) = p

-- Whether the guard has begun: the socket is no longer in its receive loop.
abbrev pub IsEnding : {S : Type 0} → Phase S → Type 0
IsEnding admitted = ⊥
IsEnding (registered k) = ⊥
IsEnding (running k last_activity p) = ⊥
IsEnding (removing b p) = Unit
IsEnding (removed p) = Unit
IsEnding (released p) = Unit

abbrev pub advanced : {S : Type 0} → Phase S → Program S → Phase S
advanced admitted p = admitted
advanced (registered k) p = registered k
advanced (running k last_activity _) p = running k last_activity p
advanced (removing b _) p = removing b p
advanced (removed _) p = removed p
advanced (released _) p = released p

module _ (env : Environment) (max_users : ℕ) where
  open env use {sv, database, redis, S, try_send, queued, decode, from_str}

  pub record Cluster : Type 0 where
    pub nodes : ℕ → ConnectionRegistry S
    pub tables : sv.Tables
    pub messages : database.Db
    pub kafka : ℕ → Bool
    pub published : List (String × String)
    pub produced : List (String × String × String)
    pub store : redis.Store
    pub sockets : List (Socket S)

  abbrev pub put : (ℕ → ConnectionRegistry S) → ℕ → ConnectionRegistry S → ℕ → ConnectionRegistry S
  put nodes n r m = if n == m then r else nodes m

  -- What a handler sees on one node, and the cluster after it.
  abbrev pub seen_from : Cluster → ℕ → World sv database try_send
  seen_from c n = record {
    registry = c.nodes n;
    tables = c.tables;
    messages = c.messages;
    kafka = c.kafka n;
    published = c.published;
    produced = c.produced;
  }

  abbrev pub changed_at : Cluster → ℕ → World sv database try_send → Cluster
  changed_at c n w = record c {
    nodes = put c.nodes n w.registry;
    tables = w.tables;
    messages = w.messages;
    published = w.published;
    produced = w.produced;
  }

  abbrev pub IsRefusal : Response → Type 0
  IsRefusal unauthorized = Unit
  IsRefusal too_many_requests = Unit
  IsRefusal (upgraded i) = ⊥

  pub data Step (c : Cluster) : Cluster → Type 0 where
    refuses :
        (authorization query : Option String) (reachable : Bool) (response : Response)
        (s' : redis.Store)
        → ws_handler decode redis max_users authorization query reachable c.store ≡ (response, s')
        → IsRefusal response
        → Step c (record c { store = s' })
    accepts :
        (n : ℕ) (authorization query : Option String) (reachable : Bool) (i : Identity)
        (s' : redis.Store)
        → ws_handler decode redis max_users authorization query reachable c.store ≡ (upgraded i, s')
        → Step c (record c {
          store = s';
          sockets = record { node = n; identity = i; phase = admitted } ∷ c.sockets;
        })
    registers :
        (before after : List (Socket S)) (n : ℕ) (i : Identity) (k : ConnectionId) (tx : S)
        → c.sockets ≡ before ++ record { node = n; identity = i; phase = admitted } ∷ after
        → queued tx ≡ []
        → Step c (record c {
          nodes = put c.nodes n (register (c.nodes n) i k tx);
          sockets = before ++ record { node = n; identity = i; phase = registered k } ∷ after;
        })
    joins_general :
        (before after : List (Socket S)) (n : ℕ) (i : Identity) (k : ConnectionId) (now : ℕ)
        → c.sockets ≡ before ++ record { node = n; identity = i; phase = registered k } ∷ after
        → Step c (record c {
          nodes = put c.nodes n (join_group (c.nodes n) i.tenant_id "general" i.user_id);
          sockets = before ++ record { node = n; identity = i; phase = running k now done } ∷ after;
        })
    takes :
        (before after : List (Socket S)) (n : ℕ) (i : Identity) (k : ConnectionId)
        (last_activity now : ℕ) (e : SocketEvent) (p : Program S)
        → c.sockets
          ≡ before
            ++ record { node = n; identity = i; phase = running k last_activity done } ∷ after
        → turn_program sv S i last_activity e ≡ some (now, p)
        → Step c (record c {
          sockets = before ++ record { node = n; identity = i; phase = running k now p } ∷ after;
        })
    lingers :
        (before after : List (Socket S)) (x : Socket S) (last_activity now : ℕ) (e : SocketEvent)
        (p : Program S)
        → c.sockets ≡ before ++ x ∷ after
        → IsEnding x.phase
        → pending x.phase ≡ done
        → turn_program sv S x.identity last_activity e ≡ some (now, p)
        → Step c (record c { sockets = before ++ record x { phase = advanced x.phase p } ∷ after })
    resumes :
        (before after : List (Socket S)) (x : Socket S) (outcome : Outcome) (p' : Program S)
        (w' : World sv database try_send)
        → c.sockets ≡ before ++ x ∷ after
        → resume sv database try_send outcome (pending x.phase) (seen_from c x.node) ≡ some (p', w')
        → Step c (record (changed_at c x.node w') {
          sockets = before ++ record x { phase = advanced x.phase p' } ∷ after;
        })
    removes :
        (before after : List (Socket S)) (n : ℕ) (i : Identity) (k : ConnectionId)
        (last_activity : ℕ) (p : Program S) (r' : ConnectionRegistry S) (empty_tenant : Bool)
        → c.sockets
          ≡ before ++ record { node = n; identity = i; phase = running k last_activity p } ∷ after
        → remove_connection (c.nodes n) i k ≡ some (r', empty_tenant)
        → Step c (record c {
          nodes = put c.nodes n r';
          sockets =
              before ++ record { node = n; identity = i; phase = removing empty_tenant p } ∷ after;
        })
    misses :
        (before after : List (Socket S)) (n : ℕ) (i : Identity) (k : ConnectionId)
        (last_activity : ℕ) (p : Program S)
        → c.sockets
          ≡ before ++ record { node = n; identity = i; phase = running k last_activity p } ∷ after
        → remove_connection (c.nodes n) i k ≡ none
        → Step c (record c {
          sockets = before ++ record { node = n; identity = i; phase = removed p } ∷ after;
        })
    drops :
        (before after : List (Socket S)) (n : ℕ) (i : Identity) (empty_tenant : Bool)
        (p : Program S)
        → c.sockets
          ≡ before ++ record { node = n; identity = i; phase = removing empty_tenant p } ∷ after
        → Step c (record c {
          nodes = put c.nodes n (drop_tenant (c.nodes n) i empty_tenant);
          sockets = before ++ record { node = n; identity = i; phase = removed p } ∷ after;
        })
    releases :
        (before after : List (Socket S)) (n : ℕ) (i : Identity) (p : Program S) (reachable : Bool)
        → c.sockets ≡ before ++ record { node = n; identity = i; phase = removed p } ∷ after
        → Step c (record c {
          store = release redis reachable i c.store;
          sockets = before ++ record { node = n; identity = i; phase = released p } ∷ after;
        })
    hears :
        (n : ℕ) (channel payload : String)
        → Memᴰ (channel, payload) c.published
        → Step c (record c {
          nodes = put c.nodes n (receive try_send sv.to_string from_str (c.nodes n) payload);
        })
    sends :
        (n : ℕ) (i : Identity) (k : ConnectionId) (s s' : S) (taken : List Message)
        → channel_of (c.nodes n) i.tenant_id i.user_id k ≡ some s
        → queued s ≡ taken ++ queued s'
        → Step c (record c { nodes = put c.nodes n (register (c.nodes n) i k s') })

  -- The clusters that can come about from nodes that have just started.
  pub data Reach : Cluster → Type 0 where
    start :
        (c : Cluster) → ((n : ℕ) → c.nodes n ≡ empty) → c.published ≡ [] → c.sockets ≡ [] → Reach c
    later : {c c' : Cluster} → Reach c → Step c c' → Reach c'
