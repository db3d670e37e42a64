-- ===== src/Cluster/Invariant.antt =====
-- What holds in every cluster that can come about: what waits in the channels, what was published, and which
-- connections are registered.
use yappa_core.Common.{
  nat_eq, string_eq, ℕ, String, ◌≡◌, ◌⊎◌, inl, inr, sym, ◌∙◌, subst, true, some, List, [], ◌∷◌,
  ◌++◌, Every, Any, Any-change, Any-map, unwrap_or,
}
use yappa_core.Auth.{Identity, ok, validate_jwt}
use yappa_core.Protocol.{ServerMessage, Message, text}
use yappa_core.Connection.{ConnectionRegistry, ConnectionId}
use yappa_core.Connection.Contents.{
  IsClean, Sends, run-IsClean, apply-IsClean, is_held, OpensNone, run-held, apply-held,
  unregisters-held,
}
use yappa_core.Connection.Spec.{
  Call, registers, unregisters, joins, leaves, creates, deletes, sends_to_user, sends_to_group,
  apply, run,
}
use yappa_core.Connection.Valid.{IsValid, apply-IsValid, run-IsValid}
use yappa_core.Ws.Effects.{IsNotice, IsMine, AreMine, Made}
use yappa_core.Ws.Program.Own.{IsOwn}
use yappa_core.Cluster.{
  Environment, Phase, admitted, registered, running, removing, removed, released, pending, Socket,
  Cluster,
}

module _ (env : Environment) (max_users : ℕ) where
  open env use {
    sv, database, redis, S, try_send, queued, queued_lem, decode, from_str, from_str_lem,
  }

  abbrev C : Type 0
  C = Cluster env max_users

  abbrev R : Type 0
  R = ConnectionRegistry S

  -- Some token is valid for this identity.
  abbrev pub IsAuthentic : Identity → Type 0
  IsAuthentic i = (token : String) × (validate_jwt decode token ≡ ok i)

  -- The message's tenant and sender are those of a valid token.
  abbrev pub IsIssued : ServerMessage → Type 0
  IsIssued m = IsAuthentic (record { tenant_id = m.tenant_id; user_id = m.sender_id })

  -- A frame that a connection of this tenant may get: a notice, or a message of the tenant that was issued.
  abbrev pub IsPermitted : String → Message → Type 0
  IsPermitted t f =
      IsNotice f
      ⊎ ((m : ServerMessage) × (m.tenant_id ≡ t)
          × (f ≡ text (unwrap_or (sv.to_string m) ""))
          × IsIssued m)

  abbrev pub WasIssued : String × String → Type 0
  WasIssued (channel, payload) = (m : ServerMessage) × (sv.to_string m ≡ some payload) × IsIssued m

  -- Between the entry into the registry and the guard's drop.
  abbrev pub IsOpenAs : ConnectionId → Phase S → Type 0
  IsOpenAs k admitted = ⊥
  IsOpenAs k (registered k') = k' ≡ k
  IsOpenAs k (running k' last_activity p) = k' ≡ k
  IsOpenAs k (removing b p) = ⊥
  IsOpenAs k (removed p) = ⊥
  IsOpenAs k (released p) = ⊥

  -- The open socket of the connection that a node has for a user.
  abbrev pub IsSocketOf : ℕ → String → String → ConnectionId → Socket S → Type 0
  IsSocketOf n t u k x =
      (x.node ≡ n) × (x.identity.tenant_id ≡ t) × (x.identity.user_id ≡ u) × IsOpenAs k x.phase

  -- A socket with a valid token, whose turn has left to do what is the client's own.
  abbrev pub IsGenuine : Socket S → Type 0
  IsGenuine x = IsAuthentic x.identity × IsOwn sv x.identity (pending x.phase)

  -- A node's registry: in order, with only frames that are permitted, and no connection without a socket.
  pub record IsSound (n : ℕ) (sockets : List (Socket S)) (r : R) : Type 0 where
    pub valid : IsValid r
    pub clean : IsClean try_send queued queued_lem IsPermitted r
    pub held :
        (t u : String) (k : ConnectionId)
        → is_held try_send r t u k ≡ true
        → Any (IsSocketOf n t u k) sockets

  pub record AreSafe (nodes : ℕ → R) (published : List (String × String))
      (sockets : List (Socket S)) : Type 0 where
    pub sound : (n : ℕ) → IsSound n sockets (nodes n)
    pub issued : Every WasIssued published
    pub genuine : Every IsGenuine sockets

  abbrev pub IsSafe : C → Type 0
  IsSafe c = AreSafe c.nodes c.published c.sockets

  abbrev Sending : Call S Message → Type 0
  Sending = Sends try_send queued queued_lem IsPermitted

  -- Calls that are permitted and open nothing keep a registry sound.
  pub IsSound-run :
      (n : ℕ) (xs : List (Socket S)) (r : R) (cs : List (Call S Message))
      → Every Sending cs
      → Every (OpensNone try_send) cs
      → IsSound n xs r
      → IsSound n xs (run try_send r cs)
  IsSound-run n xs r cs sending opening s = record {
    valid = run-IsValid try_send r cs s.valid;
    clean = run-IsClean try_send queued queued_lem IsPermitted r cs s.valid s.clean sending;
    held = λ t u k h. s.held t u k (run-held try_send r cs t u k s.valid opening h);
  }

  mine-Sends : (i : Identity) (c : Call S Message) → IsMine i c → Sending c
  mine-Sends i (joins t g u) h = tt
  mine-Sends i (leaves t g u) h = tt
  mine-Sends i (creates t g) h = tt
  mine-Sends i (deletes t g) h = tt
  mine-Sends i (sends_to_user t u m) h = inl h.1
  mine-Sends i (registers j c s) h = elim h [ ]
  mine-Sends i (unregisters j c) h = elim h [ ]
  mine-Sends i (sends_to_group t g m) h = elim h [ ]

  mine-OpensNone : (i : Identity) (c : Call S Message) → IsMine i c → OpensNone try_send c
  mine-OpensNone i (registers j c s) h t u k o = h
  mine-OpensNone i (unregisters j c) h t u k o = o
  mine-OpensNone i (joins t' g v) h t u k o = o
  mine-OpensNone i (leaves t' g v) h t u k o = o
  mine-OpensNone i (creates t' g) h t u k o = o
  mine-OpensNone i (deletes t' g) h t u k o = o
  mine-OpensNone i (sends_to_user t' v m) h t u k o = o
  mine-OpensNone i (sends_to_group t' g m) h t u k o = o

  mine-Every :
      (i : Identity) (P : Call S Message → Type 0) (cs : List (Call S Message))
      → ((c : Call S Message) → IsMine i c → P c)
      → AreMine i cs
      → Every P cs
  mine-Every i P [] f h = tt
  mine-Every i P (c ∷ cs) f h = (f c h.0, mine-Every i P cs f h.1)

  -- What a client's turn does to a registry.
  pub IsSound-Made :
      (n : ℕ) (xs : List (Socket S)) (i : Identity) (r r' : R)
      → Made sv database try_send i r r'
      → IsSound n xs r
      → IsSound n xs r'
  IsSound-Made n xs i r r' made s = subst (IsSound n xs) (sym made.ran) (
      IsSound-run n xs r made.calls (mine-Every i Sending made.calls (mine-Sends i) made.mine)
        (mine-Every i (OpensNone try_send) made.calls (mine-OpensNone i) made.mine) s)

  pub IsSound-registers :
      (n : ℕ) (xs : List (Socket S)) (r : R) (i : Identity) (k : ConnectionId) (tx : S)
      → Every (IsPermitted i.tenant_id) (queued tx)
      → Any (IsSocketOf n i.tenant_id i.user_id k) xs
      → IsSound n xs r
      → IsSound n xs (apply try_send r (registers i k tx))
  IsSound-registers n xs r i k tx permitted socket s = record {
    valid = apply-IsValid try_send (registers i k tx) s.valid;
    clean =
        apply-IsClean try_send queued queued_lem IsPermitted r (registers i k tx) s.valid s.clean
          permitted;
    held = λ t u k' h. elim (apply-held try_send r (registers i k tx) t u k' s.valid h) [
      | inl before ↦ s.held t u k' before
      | inr (tenant, user, id) ↦
          Any-map
            (λ x (node, t', u', c).
              (node, t' ∙ tenant, u' ∙ user, subst (λ j. IsOpenAs j x.phase) id c))
            xs socket
    ];
  }

  pub IsSound-sockets :
      (n : ℕ) (xs ys : List (Socket S)) (r : R)
      → ((t u : String) (k : ConnectionId)
          → Any (IsSocketOf n t u k) xs
          → Any (IsSocketOf n t u k) ys)
      → IsSound n xs r
      → IsSound n ys r
  IsSound-sockets n xs ys r f s = record {
    valid = s.valid;
    clean = s.clean;
    held = λ t u k h. f t u k (s.held t u k h);
  }

  -- The guard takes the connection out together with its socket.
  pub IsSound-unregisters :
      (before after : List (Socket S)) (x x' : Socket S) (k : ConnectionId) (r : R)
      → ((t u : String) (j : ConnectionId)
          → IsSocketOf x.node t u j x
          → (x.identity.tenant_id ≡ t) × (x.identity.user_id ≡ u) × (k ≡ j))
      → IsSound x.node (before ++ x ∷ after) r
      → IsSound x.node (before ++ x' ∷ after) (apply try_send r (unregisters x.identity k))
  IsSound-unregisters before after x x' k r only s = record {
    valid = apply-IsValid try_send (unregisters x.identity k) s.valid;
    clean =
        apply-IsClean try_send queued queued_lem IsPermitted r (unregisters x.identity k) s.valid
          s.clean tt;
    held = λ t u j h.
        let (was, other) = unregisters-held try_send r x.identity k j t u s.valid h in
        Any-change (IsSocketOf x.node t u j) before x x' after
          (λ here. absurd (other (only t u j here))) (s.held t u j was);
  }
