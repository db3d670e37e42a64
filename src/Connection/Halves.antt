-- ===== src/Connection/Halves.antt =====
-- The two parts of `remove`, with anything in between: the part under the guard of the tenant's users, and the drop
-- of a tenant that was found empty.
use yappa_core.Common.{
  string_eq, nat_eq, String, ◌≡◌, ◌⊎◌, refl, sym, ◌∙◌, Bool, true, false, ◌&&◌, none, some, ◌==◌,
  eq_of_==, if◌then◌else◌, arith, Option-cases, Bool-cases, inl, inr,
}
use yappa_core.Common.Map.{get, remove}
use yappa_core.Auth.{Identity}
use yappa_core.Connection.{
  ConnectionRegistry, ConnectionId, unregister, remove_connection, drop_tenant,
}
use yappa_core.Connection.View.{
  connections, connections-put, connections-unregister, groups-unregister, prune_after,
  get_nested-remove,
}

module _ {S : Type 0} where
  connections-remove_connection :
      (r r' : ConnectionRegistry S) (i : Identity) (c : ConnectionId) (b : Bool) (t u : String)
      → remove_connection r i c ≡ some (r', b)
      → connections r' t u ≡ (
          if (i.tenant_id == t) && (i.user_id == u)
          then prune_after (remove c) (connections r t u)
          else connections r t u)
  unfolding remove_connection
  connections-remove_connection r r' i c b t u h = elim (Option-cases (get i.tenant_id r.inner)) [
    | inl e ↦ ground (arith, e)
    | inr (users, e) ↦ elim (Option-cases (get i.user_id users)) [
      | inl e' ↦ ground (arith, e, e')
      | inr (cs, e') ↦ ground (
        arith,
        connections-put r users (remove c cs) i.tenant_id i.user_id t u e,
        eq_of_== i.tenant_id t,
        eq_of_== i.user_id u,
      )
    ]
  ]

  -- The first part has the connections of the whole.
  pub connections-removed :
      (r r' : ConnectionRegistry S) (i : Identity) (c : ConnectionId) (b : Bool) (t u : String)
      → remove_connection r i c ≡ some (r', b)
      → connections r' t u ≡ connections (unregister r i c) t u
  connections-removed r r' i c b t u h =
      connections-remove_connection r r' i c b t u h ∙ sym (connections-unregister r i c t u)

  pub groups-removed :
      (r r' : ConnectionRegistry S) (i : Identity) (c : ConnectionId) (b : Bool)
      → remove_connection r i c ≡ some (r', b)
      → r'.groups ≡ (unregister r i c).groups
  unfolding remove_connection
  groups-removed r r' i c b h = ground (arith, groups-unregister r i c)

  pub unregister-missing :
      (r : ConnectionRegistry S) (i : Identity) (c : ConnectionId)
      → remove_connection r i c ≡ none
      → unregister r i c ≡ r
  unfolding unregister
  unregister-missing r i c h = rw (h, unregister) refl

  pub connections-drop_tenant :
      (r : ConnectionRegistry S) (i : Identity) (b : Bool) (t u : String)
      → (connections (drop_tenant r i b) t u ≡ none)
        ⊎ (connections (drop_tenant r i b) t u ≡ connections r t u)
  unfolding drop_tenant
  connections-drop_tenant r i false t u = inr refl
  connections-drop_tenant r i true t u = elim (Bool-cases (i.tenant_id == t)) [
    | inl e ↦ inl (ground (arith, get_nested-remove i.tenant_id t u r.inner, e))
    | inr e ↦ inr (ground (arith, get_nested-remove i.tenant_id t u r.inner, e))
  ]

  pub groups-drop_tenant :
      (r : ConnectionRegistry S) (i : Identity) (b : Bool) → (drop_tenant r i b).groups ≡ r.groups
  unfolding drop_tenant
  groups-drop_tenant r i false = refl
  groups-drop_tenant r i true = refl
