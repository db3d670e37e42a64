-- ===== src/Connection/Isolation.antt =====
-- Tenants in the registry: a call for one tenant leaves every other as it was.
use yappa_core.Common.{string_eq, nat_eq, String, ◌≡◌, ◌≢◌, refl, sym, subst, ==-false}
use yappa_core.Connection.{ConnectionRegistry, ConnectionId, TrySend}
use yappa_core.Connection.Spec.{
  Call, registers, unregisters, joins, leaves, creates, deletes, sends_to_user, sends_to_group,
  Presence, view, apply, expected,
}
use yappa_core.Connection.Valid.{IsValid}
use yappa_core.Connection.Refinement.{view-apply}

abbrev pub tenant_of : {S M : Type 0} → Call S M → String
tenant_of (registers i c s) = i.tenant_id
tenant_of (unregisters i c) = i.tenant_id
tenant_of (joins t g u) = t
tenant_of (leaves t g u) = t
tenant_of (creates t g) = t
tenant_of (deletes t g) = t
tenant_of (sends_to_user t u msg) = t
tenant_of (sends_to_group t g msg) = t

-- The connections and the groups of a tenant are the same.
abbrev pub SameTenant : {S : Type 0} → String → Presence S → Presence S → Type 0
SameTenant t p q =
    ((u : String) (k : ConnectionId) → p.channel t u k ≡ q.channel t u k)
    × ((g : String) → p.group t g ≡ q.group t g)

module _ {S M : Type 0} (try_send : S → M → TrySend × S) where
  expected-SameTenant :
      (p : Presence S) (c : Call S M) (t : String)
      → tenant_of c ≢ t
      → SameTenant t (expected try_send p c) p
  expected-SameTenant p (registers i c s) t h = (λ u k. rw (==-false i.tenant_id t h), λ g. refl)
  expected-SameTenant p (unregisters i c) t h = (λ u k. rw (==-false i.tenant_id t h), λ g. refl)
  expected-SameTenant p (joins t₀ g₀ u₀) t h = (λ u k. refl, λ g. rw (==-false t₀ t h))
  expected-SameTenant p (leaves t₀ g₀ u₀) t h = (λ u k. refl, λ g. rw (==-false t₀ t h))
  expected-SameTenant p (creates t₀ g₀) t h = (λ u k. refl, λ g. rw (==-false t₀ t h))
  expected-SameTenant p (deletes t₀ g₀) t h = (λ u k. refl, λ g. rw (==-false t₀ t h))
  expected-SameTenant p (sends_to_user t₀ u₀ msg) t h = (λ u k. rw (==-false t₀ t h), λ g. refl)
  expected-SameTenant p (sends_to_group t₀ g₀ msg) t h = (λ u k. rw (==-false t₀ t h), λ g. refl)

  -- A call for one tenant leaves the connections and the groups of every other tenant as they were.
  pub apply-SameTenant :
      (r : ConnectionRegistry S) (c : Call S M) (t : String)
      → IsValid r
      → tenant_of c ≢ t
      → SameTenant t (view (apply try_send r c)) (view r)
  apply-SameTenant r c t v h =
      subst (λ p. SameTenant t p (view r)) (sym (view-apply try_send r c v))
        (expected-SameTenant (view r) c t h)
