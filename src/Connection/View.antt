-- ===== src/Connection/View.antt =====
-- What can be looked up in the registry, and what each operation does to it.
use yappa_core.Common.{
  string_eq, nat_eq, String, ◌≡◌, ◌&&◌, Option, none, some, ◌==◌, if◌then◌else◌, arith, eq_of_==,
  Option-cases, inl, inr,
}
use yappa_core.Common.Map.{
  Map, or_empty, get, insert, remove, is_empty, get-insert, get-remove, get-nil, get_of_is_empty,
}
use yappa_core.Auth.{Identity}
use yappa_core.Connection.{
  ConnectionRegistry, ConnectionId, TrySend, DashSet, register, unregister, put_connections,
  deliver, send_msg_to_user,
}

-- Two levels of a nested map, a missing level read as an empty one.
abbrev pub get_nested : {V : Type 0} → String → String → Map String (Map String V) → Option V
get_nested t u m = get u (or_empty (get t m))

-- A map that is left out when it is empty.
abbrev pub prune {ℓ κ} : {K : Type ℓ} {V : Type κ} → Map K V → Option (Map K V)
prune m = if is_empty m then none else some m

pub get_nested-insert :
    {V : Type 0} (t t' u : String) (users : Map String V) (m : Map String (Map String V))
    → get_nested t' u (insert t users m) ≡ (if t == t' then get u users else get_nested t' u m)
get_nested-insert t t' u users m = ground (arith, get-insert t t' users m)

pub get_nested-remove :
    {V : Type 0} (t t' u : String) (m : Map String (Map String V))
    → get_nested t' u (remove t m) ≡ (if t == t' then none else get_nested t' u m)
get_nested-remove {V} t t' u m = ground (arith, get-remove t t' m, get-nil {V = V} u)

module _ {S : Type 0} where
  abbrev pub connections : ConnectionRegistry S → String → String → Option (Map ConnectionId S)
  connections r t u = get_nested t u r.inner

  abbrev pub members : ConnectionRegistry S → String → String → Option DashSet
  members r t g = get_nested t g r.groups

  pub connections-register :
      (r : ConnectionRegistry S) (i : Identity) (c : ConnectionId) (s : S) (t u : String)
      → connections (register r i c s) t u ≡ (
          if (i.tenant_id == t) && (i.user_id == u)
          then some (insert c s (or_empty (connections r t u)))
          else connections r t u)
  unfolding register
  connections-register r i c s t u = ground (
    arith,
    get-insert i.tenant_id t
        (insert i.user_id (insert c s (or_empty (connections r i.tenant_id i.user_id)))
          (or_empty (get i.tenant_id r.inner)))
        r.inner,
    get-insert i.user_id u (insert c s (or_empty (connections r i.tenant_id i.user_id)))
        (or_empty (get i.tenant_id r.inner)),
    eq_of_== i.tenant_id t,
    eq_of_== i.user_id u,
  )

  -- Writing a user's connections back touches that user only, and leaves out an empty map.
  pub connections-put :
      (r : ConnectionRegistry S) (users : Map String (Map ConnectionId S)) (cs : Map ConnectionId S)
      (t₀ u₀ t u : String)
      → get t₀ r.inner ≡ some users
      → get_nested t u (insert t₀ (put_connections u₀ cs users) r.inner)
        ≡ (if (t₀ == t) && (u₀ == u) then prune cs else connections r t u)
  connections-put r users cs t₀ u₀ t u e = ground (
    arith,
    get-insert t₀ t (put_connections u₀ cs users) r.inner,
    get-insert u₀ u cs users,
    get-remove u₀ u (insert u₀ cs users),
    eq_of_== t₀ t,
    eq_of_== u₀ u,
  )

  abbrev pub prune_after :
      (Map ConnectionId S → Map ConnectionId S)
      → Option (Map ConnectionId S)
      → Option (Map ConnectionId S)
  prune_after f none = none
  prune_after f (some cs) = prune (f cs)

  pub connections-unregister :
      (r : ConnectionRegistry S) (i : Identity) (c : ConnectionId) (t u : String)
      → connections (unregister r i c) t u ≡ (
          if (i.tenant_id == t) && (i.user_id == u)
          then prune_after (remove c) (connections r t u)
          else connections r t u)
  unfolding unregister
  connections-unregister r i c t u = elim (Option-cases (get i.tenant_id r.inner)) [
    | inl e ↦ ground (arith, eq_of_== i.tenant_id t, get-nil {V = Map ConnectionId S} u)
    | inr (users, e) ↦ elim (Option-cases (get i.user_id users)) [
      | inl e' ↦ ground (arith, eq_of_== i.tenant_id t, eq_of_== i.user_id u)
      | inr (cs, e') ↦
          let users' = put_connections i.user_id (remove c cs) users in
          ground (
            arith,
            connections-put r users (remove c cs) i.tenant_id i.user_id t u e,
            get-insert i.tenant_id t users' r.inner,
            get_nested-remove i.tenant_id t u (insert i.tenant_id users' r.inner),
            get_of_is_empty u users',
            eq_of_== i.tenant_id t,
            eq_of_== i.user_id u,
          )
    ]
  ]

  pub groups-unregister :
      (r : ConnectionRegistry S) (i : Identity) (c : ConnectionId)
      → (unregister r i c).groups ≡ r.groups
  unfolding unregister
  groups-unregister r i c = ground arith

module _ {S M : Type 0} (try_send : S → M → TrySend × S) where
  pub connections-send_msg_to_user :
      (r : ConnectionRegistry S) (t₀ u₀ : String) (msg : M) (t u : String)
      → connections (send_msg_to_user try_send r t₀ u₀ msg) t u ≡ (
          if (t₀ == t) && (u₀ == u)
          then prune_after (deliver try_send msg) (connections r t u)
          else connections r t u)
  unfolding send_msg_to_user
  connections-send_msg_to_user r t₀ u₀ msg t u = elim (Option-cases (get t₀ r.inner)) [
    | inl e ↦ ground (arith, eq_of_== t₀ t, get-nil {V = Map ConnectionId S} u)
    | inr (users, e) ↦ elim (Option-cases (get u₀ users)) [
      | inl e' ↦ ground (arith, eq_of_== t₀ t, eq_of_== u₀ u)
      | inr (cs, e') ↦ ground (
        arith,
        connections-put r users (deliver try_send msg cs) t₀ u₀ t u e,
        eq_of_== t₀ t,
        eq_of_== u₀ u,
      )
    ]
  ]

  pub groups-send_msg_to_user :
      (r : ConnectionRegistry S) (t₀ u₀ : String) (msg : M)
      → (send_msg_to_user try_send r t₀ u₀ msg).groups ≡ r.groups
  unfolding send_msg_to_user
  groups-send_msg_to_user r t₀ u₀ msg = ground arith
