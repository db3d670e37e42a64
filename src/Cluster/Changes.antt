-- ===== src/Cluster/Changes.antt =====
-- One socket and the registry of its node are changed.
use yappa_core.Common.{
  nat_eq, string_eq, ℕ, String, ◌≡◌, ◌≢◌, inl, inr, subst, List, ◌∷◌, ◌++◌, Every, Every-middle,
  Every-change, Any-change, ==-cases,
}
use yappa_core.Connection.{ConnectionRegistry, ConnectionId}
use yappa_core.Ws.{World}
use yappa_core.Cluster.{Environment, Socket, Cluster, put}
use yappa_core.Cluster.Invariant.{
  WasIssued, IsSocketOf, IsGenuine, IsSound, AreSafe, IsSound-sockets,
}
use yappa_core.Common.{◌⊎◌, sym, ap, ◌∙◌, none, some, true, false}
use yappa_core.Common.Map.{get, or_empty, get-nil}
use yappa_core.Connection.{contains_key}
use yappa_core.Connection.View.{connections, members}
use yappa_core.Connection.Valid.{Live, IsDashSet}
use yappa_core.Connection.Spec.{channel_of}

module _ (env : Environment) (max_users : ℕ) where
  open env use {
    sv, database, redis, S, try_send, queued, queued_lem, decode, from_str, from_str_lem,
  }

  abbrev C : Type 0
  C = Cluster env max_users

  abbrev R : Type 0
  R = ConnectionRegistry S

  abbrev V : Type 0
  V = World sv database try_send

  abbrev Sockets : Type 0
  Sockets = List (Socket S)

  abbrev Sound : ℕ → Sockets → R → Type 0
  Sound = IsSound env max_users

  abbrev Safe : (ℕ → R) → List (String × String) → Sockets → Type 0
  Safe = AreSafe env max_users

  abbrev Genuine : Socket S → Type 0
  Genuine = IsGenuine env max_users

  abbrev Issued : List (String × String) → Type 0
  Issued = Every (WasIssued env max_users)

  pub put-Sound :
      (nodes : ℕ → R) (n : ℕ) (r : R) (xs : Sockets) (m : ℕ)
      → (n ≢ m → Sound m xs (nodes m))
      → Sound n xs r
      → Sound m xs (put env max_users nodes n r m)
  put-Sound nodes n r xs m s k = elim (==-cases n m) [
    | inl (e, same) ↦ rw e (subst (λ j. Sound j xs r) same k)
    | inr (e, other) ↦ rw e (s other)
  ]

  channel-fewer :
      (r r' : R) (t u : String) (k : ConnectionId)
      → (connections r' t u ≡ none) ⊎ (connections r' t u ≡ connections r t u)
      → (channel_of r' t u k ≡ none) ⊎ (channel_of r' t u k ≡ channel_of r t u k)
  channel-fewer r r' t u k (inl e) = inl (ap (λ o. get k (or_empty o)) e ∙ get-nil k)
  channel-fewer r r' t u k (inr e) = inr (ap (λ o. get k (or_empty o)) e)

  -- A registry that has lost the connections of some users, and nothing else.
  pub fewer-Sound :
      (n : ℕ) (xs : Sockets) (r r' : R)
      → ((t u : String) → (connections r' t u ≡ none) ⊎ (connections r' t u ≡ connections r t u))
      → r'.groups ≡ r.groups
      → Sound n xs r
      → Sound n xs r'
  fewer-Sound n xs r r' fewer same s = record {
    valid = record {
      live = λ t u. elim (fewer t u) [
        | inl e ↦ subst Live (sym e) tt
        | inr e ↦ subst Live (sym e) (s.valid.live t u)
      ];
      sets = λ t g.
          subst (λ gs. IsDashSet (members (record r' { groups = gs }) t g)) (sym same)
            (s.valid.sets t g);
    };
    clean = λ t u k c h. elim (channel-fewer r r' t u k (fewer t u)) [
      | inl e ↦ absurd (let gone : none ≡ some c = sym e ∙ h in cc)
      | inr e ↦ s.clean t u k c (sym e ∙ h)
    ];
    held = λ t u k h. elim (channel-fewer r r' t u k (fewer t u)) [
      | inl e ↦ absurd (let gone : false ≡ true = sym (ap contains_key e) ∙ h in cc)
      | inr e ↦ s.held t u k (ap contains_key (sym e) ∙ h)
    ];
  }

  -- One socket is changed, with the registry of its node.
  module _ (before after : Sockets) (x x' : Socket S) where
    abbrev xs : Sockets
    xs = before ++ x ∷ after

    abbrev xs' : Sockets
    xs' = before ++ x' ∷ after

    pub changes-AreSafe :
        (nodes nodes' : ℕ → R) (published published' : List (String × String)) (sockets : Sockets)
        → sockets ≡ xs
        → (Genuine x → Genuine x')
        → (Genuine x → Issued published → Issued published')
        → (((m : ℕ) → Sound m xs (nodes m)) → (m : ℕ) → Sound m xs' (nodes' m))
        → Safe nodes published sockets
        → Safe nodes' published' xs'
    changes-AreSafe nodes nodes' published published' sockets e genuine issued sound safe =
        let all = subst (Every Genuine) e safe.genuine in
        let here = Every-middle Genuine before x after all in
        record {
          sound = sound (λ m. subst (λ l. Sound m l (nodes m)) e (safe.sound m));
          issued = issued here safe.issued;
          genuine = Every-change Genuine before x x' after all (genuine here);
        }

    -- A socket that stays open as long as it was.
    pub stays :
        (m : ℕ) (r : R)
        → ((t u : String) (k : ConnectionId)
            → IsSocketOf env max_users m t u k x
            → IsSocketOf env max_users m t u k x')
        → Sound m xs r
        → Sound m xs' r
    stays m r f =
        IsSound-sockets env max_users m xs xs' r
          (λ t u k. Any-change (IsSocketOf env max_users m t u k) before x x' after (f t u k))

    pub puts :
        (nodes : ℕ → R) (r : R)
        → (Sound x.node xs (nodes x.node) → Sound x.node xs' r)
        → ((m : ℕ) → Sound m xs (nodes m))
        → (m : ℕ) → Sound m xs' (put env max_users nodes x.node r m)
    puts nodes r f s m =
        put-Sound nodes x.node r xs' m
          (λ other. stays m (nodes m) (λ t u k h. absurd (other h.0)) (s m)) (f (s x.node))

    -- The socket alone is changed.
    pub at_node :
        (nodes : ℕ → R)
        → (Sound x.node xs (nodes x.node) → Sound x.node xs' (nodes x.node))
        → ((m : ℕ) → Sound m xs (nodes m))
        → (m : ℕ) → Sound m xs' (nodes m)
    at_node nodes f s m = elim (==-cases x.node m) [
      | inl (e, same) ↦ subst (λ j. Sound j xs' (nodes j)) same (f (s x.node))
      | inr (e, other) ↦ stays m (nodes m) (λ t u k h. absurd (other h.0)) (s m)
    ]
