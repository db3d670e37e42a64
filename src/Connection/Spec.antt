-- ===== src/Connection/Spec.antt =====
-- The registry's contract: what a node promises of its connections and groups, with no maps.
use yappa_core.Common.{
  string_eq, nat_eq, String, ◌≡◌, Bool, false, not, ◌&&◌, ◌||◌, Option, none, some, List, [], ◌∷◌,
  ◌==◌, if◌then◌else◌,
}
use yappa_core.Common.Map.{or_empty, get}
use yappa_core.Auth.{Identity}
use yappa_core.Connection.{
  ConnectionRegistry, ConnectionId, TrySend, DashSet, contains_key, register, unregister,
  join_group, leave_group, create_group, delete_group, send_msg_to_user, send_msg_to_group,
}
use yappa_core.Connection.View.{connections, members}
use yappa_core.Connection.Deliver.{kept_after}

-- The operations of the registry, as calls.
pub data Call (S M : Type 0) : Type 0 where
  registers : Identity → ConnectionId → S → Call S M
  unregisters : Identity → ConnectionId → Call S M
  joins leaves : String → String → String → Call S M
  creates deletes : String → String → Call S M
  sends_to_user sends_to_group : String → String → M → Call S M

-- A channel for each open connection; for each group that exists, who is in it.
pub record Presence (S : Type 0) : Type 0 where
  pub channel : String → String → ConnectionId → Option S
  pub group : String → String → Option (String → Bool)

abbrev pub is_in : Option (String → Bool) → String → Bool
is_in none u = false
is_in (some f) u = f u

abbrev pub outside : String → Option (String → Bool) → Option (String → Bool)
outside u none = none
outside u (some f) = some (λ v. not (u == v) && f v)

abbrev pub set_of : Option DashSet → Option (String → Bool)
set_of none = none
set_of (some s) = some (λ u. contains_key (get u s))

module _ {S : Type 0} where
  abbrev pub channel_of : ConnectionRegistry S → String → String → ConnectionId → Option S
  channel_of r t u c = get c (or_empty (connections r t u))

  abbrev pub view : ConnectionRegistry S → Presence S
  view r = record { channel = channel_of r; group = λ t g. set_of (members r t g) }

  pub Presence-path :
      {p q : Presence S}
      → ((t u : String) (c : ConnectionId) → p.channel t u c ≡ q.channel t u c)
      → ((t g : String) → p.group t g ≡ q.group t g)
      → p ≡ q
  Presence-path h k = λ i. record { channel = λ t u c. h t u c i; group = λ t g. k t g i }

module _ {S M : Type 0} (try_send : S → M → TrySend × S) where
  unfoldable pub apply : ConnectionRegistry S → Call S M → ConnectionRegistry S
  apply r (registers i c s) = register r i c s
  apply r (unregisters i c) = unregister r i c
  apply r (joins t g u) = join_group r t g u
  apply r (leaves t g u) = leave_group r t g u
  apply r (creates t g) = create_group r t g
  apply r (deletes t g) = delete_group r t g
  apply r (sends_to_user t u msg) = send_msg_to_user try_send r t u msg
  apply r (sends_to_group t g msg) = send_msg_to_group try_send r t g msg

  unfoldable pub run : ConnectionRegistry S → List (Call S M) → ConnectionRegistry S
  run r [] = r
  run r (c ∷ cs) = run (apply r c) cs

  -- The contract of each call.
  abbrev pub expected : Presence S → Call S M → Presence S
  expected p (registers i c s) = record p {
    channel = λ t u k.
        if ((i.tenant_id == t) && (i.user_id == u)) && (c == k) then some s else p.channel t u k;
  }
  expected p (unregisters i c) = record p {
    channel = λ t u k.
        if ((i.tenant_id == t) && (i.user_id == u)) && (c == k) then none else p.channel t u k;
  }
  expected p (joins t₀ g₀ u) = record p {
    group = λ t g.
        if (t₀ == t) && (g₀ == g) then some (λ v. u == v || is_in (p.group t g) v) else p.group t g;
  }
  expected p (leaves t₀ g₀ u) = record p {
    group = λ t g. if (t₀ == t) && (g₀ == g) then outside u (p.group t g) else p.group t g;
  }
  expected p (creates t₀ g₀) = record p {
    group = λ t g. if (t₀ == t) && (g₀ == g) then some (is_in (p.group t g)) else p.group t g;
  }
  expected p (deletes t₀ g₀) = record p {
    group = λ t g. if (t₀ == t) && (g₀ == g) then none else p.group t g;
  }
  expected p (sends_to_user t₀ u₀ msg) = record p {
    channel = λ t u k.
        if (t₀ == t) && (u₀ == u)
        then kept_after try_send msg (p.channel t u k)
        else p.channel t u k;
  }
  expected p (sends_to_group t₀ g₀ msg) = record p {
    channel = λ t u k.
        if (t₀ == t) && is_in (p.group t₀ g₀) u
        then kept_after try_send msg (p.channel t u k)
        else p.channel t u k;
  }
