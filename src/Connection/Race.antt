-- ===== src/Connection/Race.antt =====
-- Two places where the maps' guards do not cover a whole operation: `remove` drops the tenant after it
-- has let go of the tenant's users, and `send_msg_to_user` never drops a tenant.
use yappa_core.Common.{string_eq, nat_eq, String, ◌≡◌, true, none, some, [], ◌∷◌, arith, ==-refl}
use yappa_core.Common.Map.{Map, or_empty, get, insert, remove, is_empty, get-insert, get-nil}
use yappa_core.Auth.{Identity}
use yappa_core.Connection.{
  ConnectionRegistry, ConnectionId, TrySend, register, unregister, remove_connection, drop_tenant,
  send_msg_to_user, deliver,
}
use yappa_core.Connection.View.{connections, connections-register, get_nested-remove}
use yappa_core.Connection.Spec.{channel_of}

get-one : {V : Type 0} (u : String) (v : V) → get u ((u, v) ∷ []) ≡ some v
unfolding get
get-one u v = rw (==-refl u)

remove-insert-one :
    {K V : Type 0} (u : String) (m : Map K V) → remove u (insert u [] ((u, m) ∷ [])) ≡ []
unfolding remove insert
remove-insert-one u m = ground (arith, ==-refl u)

module _ {S : Type 0} where
  -- If `remove` has found its tenant empty and another connection of that tenant registers before the
  -- tenant is dropped, then the new connection is there until the drop and gone after it, though its
  -- socket is open.
  pub drop_tenant-loses-register :
      (r r' : ConnectionRegistry S) (i j : Identity) (c k : ConnectionId) (s : S)
      → remove_connection r i c ≡ some (r', true)
      → j.tenant_id ≡ i.tenant_id
      → (channel_of (register r' j k s) j.tenant_id j.user_id k ≡ some s)
        × (channel_of (drop_tenant (register r' j k s) i true) j.tenant_id j.user_id k ≡ none)
  unfolding drop_tenant
  drop_tenant-loses-register r r' i j c k s e same = (
    ground (
      arith,
      connections-register r' j k s j.tenant_id j.user_id,
      ==-refl j.tenant_id,
      ==-refl j.user_id,
      get-insert k k s (or_empty (connections r' j.tenant_id j.user_id)),
      ==-refl k,
    ),
    ground (
      arith,
      get_nested-remove i.tenant_id j.tenant_id j.user_id (register r' j k s).inner,
      ==-refl i.tenant_id,
      get-nil {V = S} k,
    ),
  )

  unregister-of-empty :
      (r : ConnectionRegistry S) (i : Identity) (c : ConnectionId)
      → get i.tenant_id r.inner ≡ some []
      → unregister r i c ≡ r
  unfolding unregister get
  unregister-of-empty r i c e = rw (e, unregister)

module _ {S M : Type 0} (try_send : S → M → TrySend × S) where
  send_msg_to_user-empties :
      (r : ConnectionRegistry S) (t u : String) (cs : Map ConnectionId S) (msg : M)
      → get t r.inner ≡ some ((u, cs) ∷ [])
      → deliver try_send msg cs ≡ []
      → get t (send_msg_to_user try_send r t u msg).inner ≡ some []
  unfolding send_msg_to_user is_empty
  send_msg_to_user-empties r t u cs msg e gone = ground (
    arith,
    get-one u cs,
    remove-insert-one u cs,
    get-insert t t (remove u (insert u [] ((u, cs) ∷ []))) r.inner,
    ==-refl t,
  )

  -- When a delivery evicts the last connection of a tenant's only user, the tenant stays in the
  -- registry with no users, and the `remove` that follows when the socket closes leaves it there.
  pub send_msg_to_user-leaves-tenant :
      (r : ConnectionRegistry S) (i : Identity) (c : ConnectionId) (cs : Map ConnectionId S)
      (msg : M)
      → get i.tenant_id r.inner ≡ some ((i.user_id, cs) ∷ [])
      → deliver try_send msg cs ≡ []
      → get i.tenant_id
          (unregister (send_msg_to_user try_send r i.tenant_id i.user_id msg) i c).inner
        ≡ some []
  send_msg_to_user-leaves-tenant r i c cs msg e gone =
      let emptied = send_msg_to_user-empties r i.tenant_id i.user_id cs msg e gone in
      rw (unregister-of-empty (send_msg_to_user try_send r i.tenant_id i.user_id msg) i c emptied)
        emptied
