-- ===== src/Connection/Refinement.antt =====
-- The registry implements its contract: each call does to the view what `expected` says.
use yappa_core.Common.{
  string_eq, nat_eq, String, ◌≡◌, refl, sym, subst, ap, ◌∙◌, Bool, true, false, ◌&&◌, ◌||◌, Option,
  none, some, [], ◌∷◌, ◌==◌, if◌then◌else◌, arith, Option-cases, inl, inr, fun_ext, eq_of_==,
}
use yappa_core.Common.Map.{
  Map, or_empty, get, insert, remove, get-insert, get-remove, get-nil, get_of_is_empty, Distinct,
}
use yappa_core.Auth.{Identity}
use yappa_core.Connection.{
  ConnectionRegistry, ConnectionId, TrySend, DashSet, contains_key, register, unregister,
  join_group, leave_group, create_group, delete_group, send_msg_to_user, send_all,
  send_msg_to_group, deliver,
}
use yappa_core.Connection.View.{
  connections, members, prune, prune_after, connections-register, connections-unregister,
  connections-send_msg_to_user, groups-unregister, groups-send_msg_to_user,
}
use yappa_core.Connection.Deliver.{kept_after, get-deliver}
use yappa_core.Connection.Groups.{
  without, members-join_group, members-leave_group, members-create_group, members-delete_group,
  inner-leave_group, inner-delete_group,
}
use yappa_core.Connection.Spec.{
  Call, registers, unregisters, joins, leaves, creates, deletes, sends_to_user, sends_to_group,
  is_in, outside, channel_of, set_of, view, Presence-path, apply, expected,
}
use yappa_core.Connection.Valid.{IsValid, Live, IsDashSet, send_msg_to_user-IsValid}

module _ {S : Type 0} where
  get-prune : (c : ConnectionId) (m : Map ConnectionId S) → get c (or_empty (prune m)) ≡ get c m
  get-prune c m = ground (arith, get_of_is_empty c m, get-nil {V = S} c)

  channel-register :
      (r : ConnectionRegistry S) (i : Identity) (c : ConnectionId) (s : S) (t u : String)
      (k : ConnectionId)
      → channel_of (register r i c s) t u k ≡ (
          if ((i.tenant_id == t) && (i.user_id == u)) && (c == k)
          then some s
          else channel_of r t u k)
  channel-register r i c s t u k =
      ground
        (arith, connections-register r i c s t u, get-insert c k s (or_empty (connections r t u)))

  get-prune_after-remove :
      (c k : ConnectionId) (o : Option (Map ConnectionId S))
      → get k (or_empty (prune_after (remove c) o)) ≡ (if c == k then none else get k (or_empty o))
  get-prune_after-remove c k none = ground (arith, get-nil {V = S} k)
  get-prune_after-remove c k (some cs) = get-prune k (remove c cs) ∙ get-remove c k cs

  channel-unregister :
      (r : ConnectionRegistry S) (i : Identity) (c : ConnectionId) (t u : String) (k : ConnectionId)
      → channel_of (unregister r i c) t u k ≡ (
          if ((i.tenant_id == t) && (i.user_id == u)) && (c == k) then none else channel_of r t u k)
  channel-unregister r i c t u k =
      ground
        (arith, connections-unregister r i c t u, get-prune_after-remove c k (connections r t u))

-- Sets seen as functions.
is_in-set_of :
    (o : Option DashSet) (v : String) → is_in (set_of o) v ≡ contains_key (get v (or_empty o))
is_in-set_of none v = ground (arith, get-nil {V = Unit {0}} v)
is_in-set_of (some s) v = refl

set_of-joined :
    (u : String) (o : Option DashSet)
    → set_of (some (insert u tt (or_empty o))) ≡ some (λ v. u == v || is_in (set_of o) v)
set_of-joined u o =
    ap some (fun_ext (λ v. ground (arith, get-insert u v tt (or_empty o), is_in-set_of o v)))

set_of-without : (u : String) (o : Option DashSet) → set_of (without u o) ≡ outside u (set_of o)
set_of-without u none = refl
set_of-without u (some s) = ap some (fun_ext (λ v. ground (arith, get-remove u v s)))

set_of-created : (o : Option DashSet) → set_of (some (or_empty o)) ≡ some (is_in (set_of o))
set_of-created o = ap some (fun_ext (λ v. sym (is_in-set_of o v)))

-- `set_of` of an update.
set_of-if :
    (b : Bool) (o x y : Option DashSet) (z : Option (String → Bool))
    → o ≡ (if b then x else y)
    → set_of x ≡ z
    → set_of o ≡ (if b then z else set_of y)
set_of-if true o x y z e h = ap set_of e ∙ h
set_of-if false o x y z e h = ap set_of e

module _ {S M : Type 0} (try_send : S → M → TrySend × S) where
  get-prune_after-deliver :
      (msg : M) (k : ConnectionId) (o : Option (Map ConnectionId S))
      → Live o
      → get k (or_empty (prune_after (deliver try_send msg) o))
        ≡ kept_after try_send msg (get k (or_empty o))
  get-prune_after-deliver msg k none h = ground (arith, get-nil {V = S} k)
  get-prune_after-deliver msg k (some cs) h =
      get-prune k (deliver try_send msg cs) ∙ get-deliver try_send msg k cs h.0

  pub channel-send_msg_to_user :
      (r : ConnectionRegistry S) (t₀ u₀ : String) (msg : M) (t u : String) (k : ConnectionId)
      → IsValid r
      → channel_of (send_msg_to_user try_send r t₀ u₀ msg) t u k ≡ (
          if (t₀ == t) && (u₀ == u)
          then kept_after try_send msg (channel_of r t u k)
          else channel_of r t u k)
  channel-send_msg_to_user r t₀ u₀ msg t u k v = ground (
    arith,
    connections-send_msg_to_user try_send r t₀ u₀ msg t u,
    get-prune_after-deliver msg k (connections r t u) (v.live t u),
  )

  channel-send_all :
      (r : ConnectionRegistry S) (t₀ : String) (us : DashSet) (msg : M) (t u : String)
      (k : ConnectionId)
      → IsValid r
      → Distinct us
      → channel_of (send_all try_send r t₀ us msg) t u k ≡ (
          if (t₀ == t) && contains_key (get u us)
          then kept_after try_send msg (channel_of r t u k)
          else channel_of r t u k)
  unfolding send_all get
  channel-send_all r t₀ [] msg t u k v d = ground arith
  channel-send_all r t₀ ((u₀, _) ∷ us) msg t u k v d =
      let r' = send_msg_to_user try_send r t₀ u₀ msg in
      channel-send_all r' t₀ us msg t u k (send_msg_to_user-IsValid try_send t₀ u₀ msg v) d.1
      ∙ ground (arith, channel-send_msg_to_user r t₀ u₀ msg t u k v, eq_of_== u₀ u)

  channel-send_msg_to_group :
      (r : ConnectionRegistry S) (t₀ g₀ : String) (msg : M) (t u : String) (k : ConnectionId)
      → IsValid r
      → channel_of (send_msg_to_group try_send r t₀ g₀ msg) t u k ≡ (
          if (t₀ == t) && is_in (set_of (members r t₀ g₀)) u
          then kept_after try_send msg (channel_of r t u k)
          else channel_of r t u k)
  unfolding send_msg_to_group
  channel-send_msg_to_group r t₀ g₀ msg t u k v = elim (Option-cases (get t₀ r.groups)) [
    | inl e ↦ ground (arith, get-nil {V = DashSet} g₀)
    | inr (gs, e) ↦ elim (Option-cases (get g₀ gs)) [
      | inl e' ↦ ground arith
      | inr (us, e') ↦
          let found : members r t₀ g₀ ≡ some us = ground arith in
          let sets = subst IsDashSet found (v.sets t₀ g₀) in
          ground (arith, channel-send_all r t₀ us msg t u k v sets)
    ]
  ]

  groups-send_all :
      (r : ConnectionRegistry S) (t₀ : String) (us : DashSet) (msg : M)
      → (send_all try_send r t₀ us msg).groups ≡ r.groups
  unfolding send_all
  groups-send_all r t₀ [] msg = refl
  groups-send_all r t₀ ((u, _) ∷ us) msg =
      groups-send_all (send_msg_to_user try_send r t₀ u msg) t₀ us msg
      ∙ groups-send_msg_to_user try_send r t₀ u msg

  pub groups-send_msg_to_group :
      (r : ConnectionRegistry S) (t₀ g₀ : String) (msg : M)
      → (send_msg_to_group try_send r t₀ g₀ msg).groups ≡ r.groups
  unfolding send_msg_to_group
  groups-send_msg_to_group r t₀ g₀ msg = elim (Option-cases (get t₀ r.groups)) [
    | inl e ↦ ground arith
    | inr (gs, e) ↦ elim (Option-cases (get g₀ gs)) [
      | inl e' ↦ ground arith
      | inr (us, e') ↦ ground (arith, groups-send_all r t₀ us msg)
    ]
  ]

  groups-change :
      (r r' : ConnectionRegistry S) (t₀ g₀ : String) (change : Option DashSet → Option DashSet)
      (f : Option (String → Bool) → Option (String → Bool))
      → ((t g : String)
          → members r' t g
            ≡ (if (t₀ == t) && (g₀ == g) then change (members r t g) else members r t g))
      → ((o : Option DashSet) → set_of (change o) ≡ f (set_of o))
      → (t g : String)
      → set_of (members r' t g)
        ≡ (if (t₀ == t) && (g₀ == g) then f (set_of (members r t g)) else set_of (members r t g))
  groups-change r r' t₀ g₀ change f e h t g =
      set_of-if ((t₀ == t) && (g₀ == g)) (members r' t g) (change (members r t g)) (members r t g)
        (f (set_of (members r t g))) (e t g) (h (members r t g))

  -- Each call of the registry refines its contract. On a well-formed registry, what can be looked
  -- up after the call (the channel of every connection, the existence and the members of every
  -- group, of every tenant) is what `expected` says of what could be looked up before it.
  pub view-apply :
      (r : ConnectionRegistry S) (c : Call S M)
      → IsValid r
      → view (apply try_send r c) ≡ expected try_send (view r) c
  unfolding apply join_group create_group register
  view-apply r (registers i c s) v = Presence-path (channel-register r i c s) (λ t g. refl)
  view-apply r (unregisters i c) v =
      Presence-path (channel-unregister r i c) (λ t g. rw (groups-unregister r i c))
  view-apply r (joins t₀ g₀ u) v =
      Presence-path (λ t x c. refl)
        (groups-change r (join_group r t₀ g₀ u) t₀ g₀ (λ o. some (insert u tt (or_empty o)))
          (λ f. some (λ v. u == v || is_in f v)) (members-join_group r t₀ g₀ u) (set_of-joined u))
  view-apply r (leaves t₀ g₀ u) v =
      Presence-path (λ t x c. rw (inner-leave_group r t₀ g₀ u))
        (groups-change r (leave_group r t₀ g₀ u) t₀ g₀ (without u) (outside u)
          (members-leave_group r t₀ g₀ u) (set_of-without u))
  view-apply r (creates t₀ g₀) v =
      Presence-path (λ t x c. refl)
        (groups-change r (create_group r t₀ g₀) t₀ g₀ (λ o. some (or_empty o)) (λ f. some (is_in f))
          (members-create_group r t₀ g₀) set_of-created)
  view-apply r (deletes t₀ g₀) v =
      Presence-path (λ t x c. rw (inner-delete_group r t₀ g₀))
        (groups-change r (delete_group r t₀ g₀) t₀ g₀ (λ o. none) (λ f. none)
          (members-delete_group r t₀ g₀) (λ o. refl))
  view-apply r (sends_to_user t₀ u₀ msg) v =
      Presence-path (λ t u k. channel-send_msg_to_user r t₀ u₀ msg t u k v)
        (λ t g. rw (groups-send_msg_to_user try_send r t₀ u₀ msg))
  view-apply r (sends_to_group t₀ g₀ msg) v =
      Presence-path (λ t u k. channel-send_msg_to_group r t₀ g₀ msg t u k v)
        (λ t g. rw (groups-send_msg_to_group r t₀ g₀ msg))
