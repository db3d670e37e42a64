-- ===== src/Connection/Valid.antt =====
-- The well-formedness of the registry: no key occurs twice, and no user stands without a connection.
use yappa_core.Common.{
  string_eq, nat_eq, String, ◌≡◌, refl, sym, subst, Bool, true, false, ◌&&◌, Option, none, some,
  List, [], ◌∷◌, ◌==◌, if◌then◌else◌, Bool-cases, Option-cases, inl, inr,
}
use yappa_core.Common.Map.{
  Map, or_empty, get, insert, remove, is_empty, Distinct, Distinct-insert, Distinct-remove,
  is_empty-insert,
}
use yappa_core.Auth.{Identity}
use yappa_core.Connection.{
  ConnectionRegistry, ConnectionId, TrySend, DashSet, empty, register, unregister, join_group,
  leave_group, create_group, delete_group, send_msg_to_user, send_all, send_msg_to_group, deliver,
}
use yappa_core.Connection.View.{
  connections, members, prune, prune_after, connections-register, connections-unregister,
  connections-send_msg_to_user, groups-unregister, groups-send_msg_to_user,
}
use yappa_core.Connection.Deliver.{Distinct-deliver}
use yappa_core.Connection.Groups.{
  without, members-join_group, members-leave_group, members-create_group, members-delete_group,
  inner-leave_group, inner-delete_group,
}
use yappa_core.Connection.Spec.{
  Call, registers, unregisters, joins, leaves, creates, deletes, sends_to_user, sends_to_group,
  apply, run,
}

abbrev pub IsDashSet : Option DashSet → Type 0
IsDashSet none = Unit
IsDashSet (some s) = Distinct s

IsDashSet-insert :
    (u : String) (o : Option DashSet) → IsDashSet o → IsDashSet (some (insert u tt (or_empty o)))
IsDashSet-insert u none h = Distinct-insert u tt [] tt
IsDashSet-insert u (some s) h = Distinct-insert u tt s h

IsDashSet-or_empty : (o : Option DashSet) → IsDashSet o → IsDashSet (some (or_empty o))
IsDashSet-or_empty none h = tt
IsDashSet-or_empty (some s) h = h

IsDashSet-without : (u : String) (o : Option DashSet) → IsDashSet o → IsDashSet (without u o)
IsDashSet-without u none h = tt
IsDashSet-without u (some s) h = Distinct-remove u s h

-- What holds of both branches of an update holds of its result.
if_keeps {ℓ κ} :
    {A : Type ℓ} (P : A → Type κ) (b : Bool) {o x y : A}
    → o ≡ (if b then x else y)
    → P x
    → P y
    → P o
if_keeps P true e h k = subst P (sym e) h
if_keeps P false e h k = subst P (sym e) k

module _ {S : Type 0} where
  abbrev pub Live : Option (Map ConnectionId S) → Type 0
  Live none = Unit
  Live (some cs) = Distinct cs × (is_empty cs ≡ false)

  pub record IsValid (r : ConnectionRegistry S) : Type 0 where
    pub live : (t u : String) → Live (connections r t u)
    pub sets : (t g : String) → IsDashSet (members r t g)

  Live-insert :
      (c : ConnectionId) (s : S) (o : Option (Map ConnectionId S))
      → Live o
      → Live (some (insert c s (or_empty o)))
  Live-insert c s none h = (Distinct-insert c s [] tt, is_empty-insert c s [])
  Live-insert c s (some cs) h = (Distinct-insert c s cs h.0, is_empty-insert c s cs)

  Live-prune : (cs : Map ConnectionId S) → Distinct cs → Live (prune cs)
  Live-prune cs d = elim (Bool-cases (is_empty cs)) [ inl e ↦ rw e tt | inr e ↦ rw e (d, e) ]

  Live-prune_after :
      (f : Map ConnectionId S → Map ConnectionId S) (o : Option (Map ConnectionId S))
      → ((cs : Map ConnectionId S) → Distinct cs → Distinct (f cs))
      → Live o
      → Live (prune_after f o)
  Live-prune_after f none keep h = tt
  Live-prune_after f (some cs) keep h = Live-prune (f cs) (keep cs h.0)

  empty-IsValid : IsValid empty
  unfolding get
  empty-IsValid = record { live = λ t u. tt; sets = λ t g. tt }

  register-IsValid :
      {r : ConnectionRegistry S} (i : Identity) (c : ConnectionId) (s : S)
      → IsValid r
      → IsValid (register r i c s)
  unfolding register
  register-IsValid {r} i c s v = record {
    live = λ t u.
        if_keeps Live ((i.tenant_id == t) && (i.user_id == u)) (connections-register r i c s t u)
          (Live-insert c s _ (v.live t u)) (v.live t u);
    sets = v.sets;
  }

  unregister-IsValid :
      {r : ConnectionRegistry S} (i : Identity) (c : ConnectionId)
      → IsValid r
      → IsValid (unregister r i c)
  unregister-IsValid {r} i c v = record {
    live = λ t u.
        if_keeps Live ((i.tenant_id == t) && (i.user_id == u)) (connections-unregister r i c t u)
          (Live-prune_after (remove c) _ (Distinct-remove c) (v.live t u)) (v.live t u);
    sets = λ t g. rw (groups-unregister r i c) (v.sets t g);
  }

  -- A change of the groups alone, at one group.
  groups-IsValid :
      {r r' : ConnectionRegistry S} (t₀ g₀ : String) (change : Option DashSet → Option DashSet)
      → IsValid r
      → r'.inner ≡ r.inner
      → ((t g : String)
          → members r' t g
            ≡ (if (t₀ == t) && (g₀ == g) then change (members r t g) else members r t g))
      → ((o : Option DashSet) → IsDashSet o → IsDashSet (change o))
      → IsValid r'
  groups-IsValid {r} {r'} t₀ g₀ change v same e keep = record {
    live = λ t u. rw same (v.live t u);
    sets = λ t g.
        if_keeps IsDashSet ((t₀ == t) && (g₀ == g)) (e t g) (keep _ (v.sets t g)) (v.sets t g);
  }

module _ {S M : Type 0} (try_send : S → M → TrySend × S) where
  pub send_msg_to_user-IsValid :
      {r : ConnectionRegistry S} (t₀ u₀ : String) (msg : M)
      → IsValid r
      → IsValid (send_msg_to_user try_send r t₀ u₀ msg)
  send_msg_to_user-IsValid {r} t₀ u₀ msg v = record {
    live = λ t u.
        if_keeps Live ((t₀ == t) && (u₀ == u))
          (connections-send_msg_to_user try_send r t₀ u₀ msg t u)
          (Live-prune_after (deliver try_send msg) _ (Distinct-deliver try_send msg) (v.live t u))
          (v.live t u);
    sets = λ t g. rw (groups-send_msg_to_user try_send r t₀ u₀ msg) (v.sets t g);
  }

  send_all-IsValid :
      (r : ConnectionRegistry S) (t₀ : String) (us : DashSet) (msg : M)
      → IsValid r
      → IsValid (send_all try_send r t₀ us msg)
  unfolding send_all
  send_all-IsValid r t₀ [] msg v = v
  send_all-IsValid r t₀ ((u, _) ∷ us) msg v =
      send_all-IsValid (send_msg_to_user try_send r t₀ u msg) t₀ us msg
        (send_msg_to_user-IsValid t₀ u msg v)

  pub send_msg_to_group-IsValid :
      {r : ConnectionRegistry S} (t₀ g₀ : String) (msg : M)
      → IsValid r
      → IsValid (send_msg_to_group try_send r t₀ g₀ msg)
  unfolding send_msg_to_group
  send_msg_to_group-IsValid {r} t₀ g₀ msg v = elim (Option-cases (get t₀ r.groups)) [
    | inl e ↦ rw (e, send_msg_to_group) v
    | inr (gs, e) ↦ elim (Option-cases (get g₀ gs)) [
      | inl e' ↦ rw (e, e', send_msg_to_group) v
      | inr (us, e') ↦ rw (e, e', send_msg_to_group) (send_all-IsValid r t₀ us msg v)
    ]
  ]

  -- Every operation of the registry keeps it well formed.
  pub apply-IsValid :
      {r : ConnectionRegistry S} (c : Call S M) → IsValid r → IsValid (apply try_send r c)
  unfolding apply join_group leave_group create_group delete_group
  apply-IsValid {r} (registers i c s) v = register-IsValid i c s v
  apply-IsValid {r} (unregisters i c) v = unregister-IsValid i c v
  apply-IsValid {r} (joins t g u) v =
      groups-IsValid t g (λ o. some (insert u tt (or_empty o))) v refl (members-join_group r t g u)
        (IsDashSet-insert u)
  apply-IsValid {r} (leaves t g u) v =
      groups-IsValid t g (without u) v (inner-leave_group r t g u) (members-leave_group r t g u)
        (IsDashSet-without u)
  apply-IsValid {r} (creates t g) v =
      groups-IsValid t g (λ o. some (or_empty o)) v refl (members-create_group r t g)
        IsDashSet-or_empty
  apply-IsValid {r} (deletes t g) v =
      groups-IsValid t g (λ o. none) v (inner-delete_group r t g) (members-delete_group r t g)
        (λ o h. tt)
  apply-IsValid {r} (sends_to_user t u msg) v = send_msg_to_user-IsValid t u msg v
  apply-IsValid {r} (sends_to_group t g msg) v = send_msg_to_group-IsValid t g msg v

  pub run-IsValid :
      (r : ConnectionRegistry S) (cs : List (Call S M)) → IsValid r → IsValid (run try_send r cs)
  unfolding run
  run-IsValid r [] v = v
  run-IsValid r (c ∷ cs) v = run-IsValid (apply try_send r c) cs (apply-IsValid c v)

  -- After any history of calls on a new registry, no user stands in it with no connection, no
  -- connection stands twice under one user, and no user twice in a group.
  pub run-empty-IsValid : (cs : List (Call S M)) → IsValid (run try_send empty cs)
  run-empty-IsValid cs = run-IsValid empty cs empty-IsValid
