-- ===== src/Cluster/Sockets.antt =====
-- What a step of one socket does to a cluster.
use yappa_core.Common.{
  nat_eq, string_eq, ℕ, String, ◌≡◌, refl, sym, subst, Bool, Option, some, List, [], ◌∷◌, ◌++◌,
  Every, Every-append, Every-middle, Any-middle,
}
use yappa_core.Auth.{Identity}
use yappa_core.Connection.{ConnectionRegistry, ConnectionId, register, unregister, join_group}
use yappa_core.Connection.Spec.{joins, run, apply}
use yappa_core.Ws.{World}
use yappa_core.Ws.Socket.{SocketEvent}
use yappa_core.Ws.Program.{Program, done, Outcome, turn_program, resume}
use yappa_core.Ws.Effects.{Moved}
use yappa_core.Ws.Program.Own.{IsOwn, turn_program-IsOwn}
use yappa_core.Ws.Program.Moves.{resume-Moved}
use yappa_core.Ws.Upgrade.{ws_handler, upgraded}
use yappa_core.Ws.Upgrade.Admit.{Answers, ws_handler-Answers}
use yappa_core.Cluster.{
  Environment, Phase, admitted, registered, running, removing, removed, released, pending, advanced,
  Socket, Cluster, put, seen_from,
}
use yappa_core.Cluster.Invariant.{
  IsAuthentic, IsPermitted, WasIssued, IsOpenAs, IsSocketOf, IsGenuine, IsSound, AreSafe, IsSafe,
  IsSound-run, IsSound-Made, IsSound-registers, IsSound-unregisters,
}
use yappa_core.Cluster.Heard.{IsFrom-WasIssued}
use yappa_core.Common.{none, inr}
use yappa_core.Connection.{remove_connection, drop_tenant}
use yappa_core.Connection.Halves.{
  connections-removed, groups-removed, unregister-missing, connections-drop_tenant,
  groups-drop_tenant,
}
use yappa_core.Cluster.Changes.{fewer-Sound, at_node, changes-AreSafe, stays, puts}

module _ (env : Environment) (max_users : ℕ) where
  open env use {
    sv, database, redis, S, try_send, queued, queued_lem, decode, from_str, from_str_lem,
  }

  abbrev C : Type 0
  C = Cluster env max_users

  abbrev R : Type 0
  R = ConnectionRegistry S

  abbrev V : Type 0
  V = World sv database try_send

  abbrev Sockets : Type 0
  Sockets = List (Socket S)

  abbrev Sound : ℕ → Sockets → R → Type 0
  Sound = IsSound env max_users

  abbrev Safe : (ℕ → R) → List (String × String) → Sockets → Type 0
  Safe = AreSafe env max_users

  abbrev Genuine : Socket S → Type 0
  Genuine = IsGenuine env max_users

  abbrev Issued : List (String × String) → Type 0
  Issued = Every (WasIssued env max_users)

  -- A handshake that is accepted had a valid token.
  pub accepted-IsAuthentic :
      (authorization query : Option String) (reachable : Bool) (i : Identity) (s s' : redis.Store)
      → ws_handler decode redis max_users authorization query reachable s ≡ (upgraded i, s')
      → IsAuthentic env max_users i
  accepted-IsAuthentic authorization query reachable i s s' e =
      let (token, found, valid, allowed) : Answers decode redis max_users authorization query
          reachable s (upgraded i) s' =
        subst (λ p. Answers decode redis max_users authorization query reachable s p.0 p.1) e
          (ws_handler-Answers decode redis max_users authorization query reachable s) in
      (token, valid)

  module _ (nodes : ℕ → R) (published : List (String × String)) (sockets before after : Sockets)
      (n : ℕ) (i : Identity) where
    abbrev socket : Phase S → Socket S
    socket phase = record { node = n; identity = i; phase = phase }

    pub registers-AreSafe :
        (k : ConnectionId) (tx : S)
        → sockets ≡ before ++ socket admitted ∷ after
        → queued tx ≡ []
        → Safe nodes published sockets
        → Safe
            (put env max_users nodes n (register (nodes n) i k tx))
            published
            (before ++ socket (registered k) ∷ after)
    unfolding apply
    registers-AreSafe k tx e fresh =
        let x = socket admitted in
        let x' = socket (registered k) in
        changes-AreSafe env max_users before after x x' nodes _ published published sockets e
          (λ g. (g.0, tt)) (λ g h. h)
          (puts env max_users before after x x' nodes (register (nodes n) i k tx) (λ s.
            IsSound-registers env max_users n _ (nodes n) i k tx
              (subst (λ l. Every (IsPermitted env max_users i.tenant_id) l) (sym fresh) tt)
              (Any-middle (IsSocketOf env max_users n i.tenant_id i.user_id k) before x' after
                (refl, refl, refl, refl))
              (stays env max_users before after x x' n (nodes n) (λ t u j h. absurd h.3) s)))

    pub joins_general-AreSafe :
        (k : ConnectionId) (now : ℕ)
        → sockets ≡ before ++ socket (registered k) ∷ after
        → Safe nodes published sockets
        → Safe
            (put env max_users nodes n (join_group (nodes n) i.tenant_id "general" i.user_id))
            published
            (before ++ socket (running k now done) ∷ after)
    unfolding apply run
    joins_general-AreSafe k now e =
        let x = socket (registered k) in
        let x' = socket (running k now done) in
        changes-AreSafe env max_users before after x x' nodes _ published published sockets e
          (λ g. (g.0, tt)) (λ g h. h)
          (puts env max_users before after x x' nodes
            (join_group (nodes n) i.tenant_id "general" i.user_id)
            (λ s.
              IsSound-run env max_users n _ (nodes n) (joins i.tenant_id "general" i.user_id ∷ [])
                (tt, tt) ((λ t u c o. o), tt)
                (stays env max_users before after x x' n (nodes n) (λ t u j h. h) s)))

    pub takes-AreSafe :
        (k : ConnectionId) (last_activity now : ℕ) (e : SocketEvent) (p : Program S)
        → sockets ≡ before ++ socket (running k last_activity done) ∷ after
        → turn_program sv S i last_activity e ≡ some (now, p)
        → Safe nodes published sockets
        → Safe nodes published (before ++ socket (running k now p) ∷ after)
    takes-AreSafe k last_activity now e p same ran =
        let x = socket (running k last_activity done) in
        let x' = socket (running k now p) in
        changes-AreSafe env max_users before after x x' nodes nodes published published sockets same
          (λ g. (g.0, turn_program-IsOwn sv S i last_activity now e p ran)) (λ g h. h)
          (λ s m. stays env max_users before after x x' m (nodes m) (λ t u j h. h) (s m))

    -- The registry without the connection, whole.
    unregistered :
        (k : ConnectionId) (last_activity : ℕ) (p : Program S) (x' : Socket S)
        → Sound n (before ++ socket (running k last_activity p) ∷ after) (nodes n)
        → Sound n (before ++ x' ∷ after) (unregister (nodes n) i k)
    unfolding apply
    unregistered k last_activity p x' =
        IsSound-unregisters env max_users before after (socket (running k last_activity p)) x' k
          (nodes n) (λ t u j h. (h.1, h.2, h.3))

    pub removes-AreSafe :
        (k : ConnectionId) (last_activity : ℕ) (p : Program S) (r' : R) (b : Bool)
        → sockets ≡ before ++ socket (running k last_activity p) ∷ after
        → remove_connection (nodes n) i k ≡ some (r', b)
        → Safe nodes published sockets
        → Safe (put env max_users nodes n r') published (before ++ socket (removing b p) ∷ after)
    removes-AreSafe k last_activity p r' b e ran =
        let x = socket (running k last_activity p) in
        let x' = socket (removing b p) in
        changes-AreSafe env max_users before after x x' nodes _ published published sockets e
          (λ g. g) (λ g h. h)
          (puts env max_users before after x x' nodes r' (λ s.
            fewer-Sound env max_users n _ (unregister (nodes n) i k) r'
              (λ t u. inr (connections-removed (nodes n) r' i k b t u ran))
              (groups-removed (nodes n) r' i k b ran) (unregistered k last_activity p x' s)))

    pub misses-AreSafe :
        (k : ConnectionId) (last_activity : ℕ) (p : Program S)
        → sockets ≡ before ++ socket (running k last_activity p) ∷ after
        → remove_connection (nodes n) i k ≡ none
        → Safe nodes published sockets
        → Safe nodes published (before ++ socket (removed p) ∷ after)
    misses-AreSafe k last_activity p e missing =
        let x = socket (running k last_activity p) in
        let x' = socket (removed p) in
        changes-AreSafe env max_users before after x x' nodes nodes published published sockets e
          (λ g. g) (λ g h. h)
          (at_node env max_users before after x x' nodes (λ s.
            subst (Sound n (before ++ x' ∷ after)) (unregister-missing (nodes n) i k missing)
              (unregistered k last_activity p x' s)))

    pub drops-AreSafe :
        (b : Bool) (p : Program S)
        → sockets ≡ before ++ socket (removing b p) ∷ after
        → Safe nodes published sockets
        → Safe
            (put env max_users nodes n (drop_tenant (nodes n) i b))
            published
            (before ++ socket (removed p) ∷ after)
    drops-AreSafe b p e =
        let x = socket (removing b p) in
        let x' = socket (removed p) in
        changes-AreSafe env max_users before after x x' nodes _ published published sockets e
          (λ g. g) (λ g h. h)
          (puts env max_users before after x x' nodes (drop_tenant (nodes n) i b) (λ s.
            fewer-Sound env max_users n _ (nodes n) (drop_tenant (nodes n) i b)
              (connections-drop_tenant (nodes n) i b) (groups-drop_tenant (nodes n) i b)
              (stays env max_users before after x x' n (nodes n) (λ t u j h. absurd h.3) s)))

    pub releases-AreSafe :
        (p : Program S)
        → sockets ≡ before ++ socket (removed p) ∷ after
        → Safe nodes published sockets
        → Safe nodes published (before ++ socket (released p) ∷ after)
    releases-AreSafe p e =
        let x = socket (removed p) in
        let x' = socket (released p) in
        changes-AreSafe env max_users before after x x' nodes nodes published published sockets e
          (λ g. g) (λ g h. h)
          (λ s m. stays env max_users before after x x' m (nodes m) (λ t u j h. absurd h.3) (s m))

  IsOpenAs-advanced :
      (k : ConnectionId) (phase : Phase S) (p : Program S)
      → IsOpenAs env max_users k phase
      → IsOpenAs env max_users k (advanced phase p)
  IsOpenAs-advanced k admitted p h = h
  IsOpenAs-advanced k (registered j) p h = h
  IsOpenAs-advanced k (running j last_activity q) p h = h
  IsOpenAs-advanced k (removing b q) p h = h
  IsOpenAs-advanced k (removed q) p h = h
  IsOpenAs-advanced k (released q) p h = h

  advanced-IsOwn :
      (i : Identity) (phase : Phase S) (p : Program S)
      → IsOwn sv i p
      → IsOwn sv i (pending (advanced phase p))
  advanced-IsOwn i admitted p h = tt
  advanced-IsOwn i (registered j) p h = tt
  advanced-IsOwn i (running j last_activity q) p h = h
  advanced-IsOwn i (removing b q) p h = h
  advanced-IsOwn i (removed q) p h = h
  advanced-IsOwn i (released q) p h = h

  pub lingers-AreSafe :
      (nodes : ℕ → R) (published : List (String × String)) (sockets before after : Sockets)
      (x : Socket S) (last_activity now : ℕ) (e : SocketEvent) (p : Program S)
      → sockets ≡ before ++ x ∷ after
      → turn_program sv S x.identity last_activity e ≡ some (now, p)
      → Safe nodes published sockets
      → Safe nodes published (before ++ record x { phase = advanced x.phase p } ∷ after)
  lingers-AreSafe nodes published sockets before after x last_activity now e p same ran =
      let x' : Socket S = record x { phase = advanced x.phase p } in
      changes-AreSafe env max_users before after x x' nodes nodes published published sockets same
        (λ g. (
          g.0,
          advanced-IsOwn x.identity x.phase p
              (turn_program-IsOwn sv S x.identity last_activity now e p ran),
        ))
        (λ g h. h)
        (λ s m.
          stays env max_users before after x x' m (nodes m)
            (λ t u k h. (h.0, h.1, h.2, IsOpenAs-advanced k x.phase p h.3)) (s m))

  published-Moved :
      (i : Identity) (w w' : V)
      → IsAuthentic env max_users i
      → Moved sv database try_send i w w'
      → Issued w.published
      → Issued w'.published
  published-Moved i w w' auth moved issued =
      subst (λ l. Every (WasIssued env max_users) l) (sym moved.adds.appended)
        (Every-append (WasIssued env max_users) w.published moved.adds.new issued
          (IsFrom-WasIssued env max_users i moved.adds.new auth moved.adds.authentic))

  pub resumes-AreSafe :
      (c : C) (before after : Sockets) (x : Socket S) (outcome : Outcome) (p' : Program S) (w' : V)
      → c.sockets ≡ before ++ x ∷ after
      → resume sv database try_send outcome (pending x.phase) (seen_from env max_users c x.node)
        ≡ some (p', w')
      → IsSafe env max_users c
      → Safe
          (put env max_users c.nodes x.node w'.registry)
          w'.published
          (before ++ record x { phase = advanced x.phase p' } ∷ after)
  resumes-AreSafe c before after x outcome p' w' e ran =
      let x' : Socket S = record x { phase = advanced x.phase p' } in
      let w = seen_from env max_users c x.node in
      let step = λ (g : Genuine x).
        resume-Moved sv database try_send x.identity outcome (pending x.phase) p' w w' g.1 ran in
      λ safe.
        let here = Every-middle Genuine before x after (subst (Every Genuine) e safe.genuine) in
        changes-AreSafe env max_users before after x x' c.nodes _ c.published w'.published c.sockets
          e (λ g. (g.0, advanced-IsOwn x.identity x.phase p' (step g).0))
          (λ g. published-Moved x.identity w w' g.0 (step g).1)
          (puts env max_users before after x x' c.nodes w'.registry (λ s.
            IsSound-Made env max_users x.node _ x.identity (c.nodes x.node) w'.registry
              (step here).1.made_by
              (stays env max_users before after x x' x.node (c.nodes x.node)
                (λ t u k h. (h.0, h.1, h.2, IsOpenAs-advanced k x.phase p' h.3)) s)))
          safe
