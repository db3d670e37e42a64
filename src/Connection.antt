-- ===== src/Connection.antt =====
-- src/connection/mod.rs: the registry of open connections and of group members on one node.
--
-- `S` stands for the channel behind an `mpsc::Sender`, with what is queued in it. `try_send` is
-- tokio's: it returns the outcome and the channel after the call. A `DashSet` is a map to the unit
-- type. `or_default` is `or_empty`, and a change through a guard writes the inner map back.
-- The log lines are left out.
pub mod View
pub mod Deliver
pub mod Groups
pub mod Spec
pub mod Valid
pub mod Refinement
pub mod Race
pub mod Halves
pub mod Contents
pub mod Isolation
mod Tests
use yappa_core.Common.{
  string_eq, nat_eq, ℕ, Uuid, String, Bool, true, false, Option, none, some, List, [], ◌∷◌,
  if◌then◌else◌,
}
use yappa_core.Common.Map.{Map, or_empty, get, insert, remove, is_empty}
use yappa_core.Auth.{Identity}

abbrev pub ConnectionId : Type 0
ConnectionId = Uuid

pub data TrySend : Type 0 where
  sent full closed : TrySend

abbrev pub DashSet : Type 0
DashSet = Map String (Unit {0})

pub record ConnectionRegistry (S : Type 0) : Type 0 where
  pub inner : Map String (Map String (Map ConnectionId S))
  pub groups : Map String (Map String DashSet)

abbrev pub contains_key {ℓ} : {V : Type ℓ} → Option V → Bool
contains_key none = false
contains_key (some _) = true

module _ {S : Type 0} where
  abbrev pub empty : ConnectionRegistry S
  empty = record { inner = []; groups = [] }

  unfoldable pub register :
      ConnectionRegistry S → Identity → ConnectionId → S → ConnectionRegistry S
  register r identity connection_id sender =
      let users = or_empty (get identity.tenant_id r.inner) in
      let connections = or_empty (get identity.user_id users) in
      record r {
        inner =
            insert identity.tenant_id
              (insert identity.user_id (insert connection_id sender connections) users) r.inner;
      }

  unfoldable pub join_group : ConnectionRegistry S → String → String → String → ConnectionRegistry S
  join_group r tenant_id group_id user_id =
      let tenant_groups = or_empty (get tenant_id r.groups) in
      let members = or_empty (get group_id tenant_groups) in
      record r {
        groups =
            insert tenant_id (insert group_id (insert user_id tt members) tenant_groups) r.groups;
      }

  unfoldable pub leave_group :
      ConnectionRegistry S → String → String → String → ConnectionRegistry S
  leave_group r tenant_id group_id user_id = elim (get tenant_id r.groups) [
    | none ↦ r
    | some tenant_groups ↦ elim (get group_id tenant_groups) [
      | none ↦ r
      | some members ↦ record r {
        groups = insert tenant_id (insert group_id (remove user_id members) tenant_groups) r.groups;
      }
    ]
  ]

  unfoldable pub create_group : ConnectionRegistry S → String → String → ConnectionRegistry S
  create_group r tenant_id group_id =
      let tenant_groups = or_empty (get tenant_id r.groups) in
      record r {
        groups =
            insert tenant_id (insert group_id (or_empty (get group_id tenant_groups)) tenant_groups)
              r.groups;
      }

  unfoldable pub delete_group : ConnectionRegistry S → String → String → ConnectionRegistry S
  delete_group r tenant_id group_id = elim (get tenant_id r.groups) [
    | none ↦ r
    | some tenant_groups ↦ record r {
      groups = insert tenant_id (remove group_id tenant_groups) r.groups;
    }
  ]

  unfoldable pub is_user_in_group : ConnectionRegistry S → String → String → String → Bool
  is_user_in_group r tenant_id group_id user_id = elim (get tenant_id r.groups) [
    | none ↦ false
    | some tenant_groups ↦ elim (get group_id tenant_groups) [
      | none ↦ false
      | some members ↦ contains_key (get user_id members)
    ]
  ]

  -- A user's connections after a change to them; the user goes with the last one.
  abbrev put_connections :
      String
      → Map ConnectionId S
      → Map String (Map ConnectionId S)
      → Map String (Map ConnectionId S)
  put_connections user_id connections users =
      let users' = insert user_id connections users in
      if is_empty connections then remove user_id users' else users'

  -- The part of `remove` that runs under the guard of the tenant's users: `none` for an early return,
  -- or the registry and `should_remove_tenant`.
  unfoldable pub remove_connection :
      ConnectionRegistry S → Identity → ConnectionId → Option (ConnectionRegistry S × Bool)
  remove_connection r identity connection_id = elim (get identity.tenant_id r.inner) [
    | none ↦ none
    | some users ↦ elim (get identity.user_id users) [
      | none ↦ none
      | some connections ↦
          let users' = put_connections identity.user_id (remove connection_id connections) users in
          some (record r { inner = insert identity.tenant_id users' r.inner }, is_empty users')
    ]
  ]

  -- The part of `remove` after that guard is dropped.
  pub drop_tenant : ConnectionRegistry S → Identity → Bool → ConnectionRegistry S
  drop_tenant r identity should_remove_tenant =
      if should_remove_tenant then record r { inner = remove identity.tenant_id r.inner } else r

  unfoldable pub unregister : ConnectionRegistry S → Identity → ConnectionId → ConnectionRegistry S
  unfolding remove_connection drop_tenant
  unregister r identity connection_id = elim (remove_connection r identity connection_id) [
    | none ↦ r
    | some (r', should_remove_tenant) ↦ drop_tenant r' identity should_remove_tenant
  ]

abbrev mark : TrySend → ConnectionId → List ConnectionId → List ConnectionId
mark sent conn_id stale = stale
mark full conn_id stale = conn_id ∷ stale
mark closed conn_id stale = conn_id ∷ stale

evict : {S : Type 0} → List ConnectionId → Map ConnectionId S → Map ConnectionId S
evict [] connections = connections
evict (conn_id ∷ stale) connections = evict stale (remove conn_id connections)

module _ {S M : Type 0} (try_send : S → M → TrySend × S) where
  -- The loop over the user's connections: the channels after it, and `stale`.
  try_all : M → Map ConnectionId S → Map ConnectionId S × List ConnectionId
  try_all msg [] = ([], [])
  try_all msg ((conn_id, sender) ∷ rest) =
      let (outcome, sender') = try_send sender msg in
      let (rest', stale) = try_all msg rest in
      ((conn_id, sender') ∷ rest', mark outcome conn_id stale)

  -- What the loop and the eviction leave of the user's connections.
  pub deliver : M → Map ConnectionId S → Map ConnectionId S
  unfolding try_all evict
  deliver msg connections = let (tried, stale) = try_all msg connections in evict stale tried

  unfoldable pub send_msg_to_user :
      ConnectionRegistry S → String → String → M → ConnectionRegistry S
  unfolding deliver
  send_msg_to_user r tenant_id user_id msg = elim (get tenant_id r.inner) [
    | none ↦ r
    | some users ↦ elim (get user_id users) [
      | none ↦ r
      | some connections ↦ record r {
        inner = insert tenant_id (put_connections user_id (deliver msg connections) users) r.inner;
      }
    ]
  ]

  send_all : ConnectionRegistry S → String → DashSet → M → ConnectionRegistry S
  send_all r tenant_id [] msg = r
  send_all r tenant_id ((user_id, _) ∷ user_ids) msg =
      send_all (send_msg_to_user r tenant_id user_id msg) tenant_id user_ids msg

  unfoldable pub send_msg_to_group :
      ConnectionRegistry S → String → String → M → ConnectionRegistry S
  unfolding send_all
  send_msg_to_group r tenant_id group_id msg = elim (get tenant_id r.groups) [
    | none ↦ r
    | some tenant_groups ↦ elim (get group_id tenant_groups) [
      | none ↦ r
      | some members ↦ send_all r tenant_id members msg
    ]
  ]
