-- ===== src/Cluster/Drained.antt =====
-- A cluster whose sockets have all come to their end.
use yappa_core.Common.{
  string_eq, ℕ, ◌<◌, ◌≡◌, refl, ap, ◌∙◌, subst, String, false, List, [], ◌∷◌, ◌++◌, Every, Any,
  Lacks, contains, Bool-cases, inl, inr, i64_max, ==-refl, arith,
}
use yappa_core.Auth.{Identity}
use yappa_core.Connection.{ConnectionId}
use yappa_core.Connection.Contents.{is_held}
use yappa_core.Limits.Users.{Tracks}
use yappa_core.Limits.Open.{open_of}
use yappa_core.Cluster.{
  Environment, Phase, admitted, registered, running, removing, removed, released, Socket, Cluster,
  Reach,
}
use yappa_core.Cluster.Invariant.{IsAuthentic, IsOpenAs, IsSocketOf}
use yappa_core.Cluster.Safety.{held-IsSocketOf}
use yappa_core.Cluster.Places.{place, places}
use yappa_core.Cluster.Cap.{ArePlain, IsAnswered, steps, sockets-Counts}

abbrev pub IsReleased : {S : Type 0} → Phase S → Type 0
IsReleased admitted = ⊥
IsReleased (registered k) = ⊥
IsReleased (running k last_activity p) = ⊥
IsReleased (removing b p) = ⊥
IsReleased (removed p) = ⊥
IsReleased (released p) = Unit

abbrev pub AllReleased : {S : Type 0} → List (Socket S) → Type 0
AllReleased xs = Every (λ x. IsReleased x.phase) xs

no-place : {S : Type 0} (i : Identity) (phase : Phase S) → IsReleased phase → place i phase ≡ []
no-place i admitted h = absurd h
no-place i (registered k) h = absurd h
no-place i (running k last_activity p) h = absurd h
no-place i (removing b p) h = absurd h
no-place i (removed p) h = absurd h
no-place i (released p) h = refl

no-places : {S : Type 0} (xs : List (Socket S)) → AllReleased xs → places xs ≡ []
no-places [] h = refl
no-places (x ∷ xs) h =
    ap (λ is. is ++ places xs) (no-place x.identity x.phase h.0) ∙ no-places xs h.1

none-listed : (xs : List String) → ((u : String) → contains u xs ≡ false) → xs ≡ []
none-listed [] h = refl
none-listed (x ∷ xs) h = absurd (ground (arith, h x, ==-refl x))

module _ (env : Environment) (max_users : ℕ) where
  released-IsClosed :
      (k : ConnectionId) (phase : Phase env.S)
      → IsReleased phase
      → IsOpenAs env max_users k phase
      → ⊥
  released-IsClosed k admitted h o = h
  released-IsClosed k (registered j) h o = h
  released-IsClosed k (running j last_activity p) h o = h
  released-IsClosed k (removing b p) h o = h
  released-IsClosed k (removed p) h o = h
  released-IsClosed k (released p) h o = o

  not-open :
      (n : ℕ) (t u : String) (k : ConnectionId) (xs : List (Socket env.S))
      → AllReleased xs
      → Any (λ x. IsSocketOf env max_users n t u k x × IsAuthentic env max_users x.identity) xs
      → ⊥
  not-open n t u k [] h a = a
  not-open n t u k (x ∷ xs) h (inl a) = released-IsClosed k x.phase h.0 a.0.3
  not-open n t u k (x ∷ xs) h (inr a) = not-open n t u k xs h.1 a

  -- In every cluster that can come about and whose sockets have all been released, as long as Redis was empty at
  -- first and answers each call of the limiter, no valid token's tenant has a closing brace in its name,
  -- and there were fewer than 2^63 - 1 steps: no node has a connection of any tenant, and for a tenant
  -- with no brace in its name Redis has no user online and each user's count is 0.
  pub released-IsEmpty :
      {c : Cluster env max_users} (r : Reach env max_users c)
      → AllReleased c.sockets
      → ArePlain env max_users
      → IsAnswered env max_users r
      → steps env max_users r < i64_max
      → (t : String) → Lacks b'}' t
      → ((n : ℕ) (t' u : String) (k : ConnectionId)
          → is_held env.try_send (c.nodes n) t' u k ≡ false)
        × Tracks env.redis t c.store [] (λ u. 0)
  released-IsEmpty {c} r all plain answered small t ht =
      let (xs, capped, tracks) = sockets-Counts env max_users r plain answered small t ht in
      let idle =
        subst (λ is. Tracks env.redis t c.store xs (open_of t is)) (no-places c.sockets all)
          tracks in
      (
        λ n t' u k. elim (Bool-cases (is_held env.try_send (c.nodes n) t' u k)) [
          | inl h ↦
              absurd (not-open n t' u k c.sockets all (held-IsSocketOf env max_users r n t' u k h))
          | inr h ↦ h
        ],
        subst (λ l. Tracks env.redis t c.store l (λ u. 0)) (none-listed xs idle.listed) idle,
      )
