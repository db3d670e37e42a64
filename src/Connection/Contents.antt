-- ===== src/Connection/Contents.antt =====
-- What the registry's calls put into the channels, and which connections they leave in it.
use yappa_core.Common.{
  Every, Every-append, string_eq, nat_eq, String, ◌≡◌, ◌⊎◌, inl, inr, refl, sym, ap, ◌∙◌, subst,
  Bool, true, false, ◌&&◌, Option, none, some, List, [], ◌∷◌, ◌++◌, ◌==◌, if◌then◌else◌, Bool-cases,
  eq_of_==, ==-refl, arith,
}
use yappa_core.Auth.{Identity}
use yappa_core.Connection.{
  ConnectionRegistry, ConnectionId, TrySend, sent, full, closed, contains_key,
}
use yappa_core.Connection.Deliver.{kept, kept_after}
use yappa_core.Connection.Spec.{
  Presence, Call, registers, unregisters, joins, leaves, creates, deletes, sends_to_user,
  sends_to_group, is_in, view, apply, run, expected, channel_of,
}
use yappa_core.Connection.Valid.{IsValid, apply-IsValid}
use yappa_core.Connection.Refinement.{view-apply}

-- A bounded channel's queue after `try_send`: the message is at its end, or not in it.
abbrev pub queue_after : {M : Type 0} → TrySend → List M → M → List M
queue_after sent q m = q ++ m ∷ []
queue_after full q m = q
queue_after closed q m = q

-- The connection that a call puts into the registry.
abbrev pub Opens : {S M : Type 0} → Call S M → String → String → ConnectionId → Type 0
Opens (registers i c s) t u k = (i.tenant_id ≡ t) × (i.user_id ≡ u) × (c ≡ k)
Opens (unregisters i c) t u k = ⊥
Opens (joins t' g v) t u k = ⊥
Opens (leaves t' g v) t u k = ⊥
Opens (creates t' g) t u k = ⊥
Opens (deletes t' g) t u k = ⊥
Opens (sends_to_user t' v m) t u k = ⊥
Opens (sends_to_group t' g m) t u k = ⊥

module _ {S M : Type 0} (try_send : S → M → TrySend × S) where
  abbrev pub is_held : ConnectionRegistry S → String → String → ConnectionId → Bool
  is_held r t u k = contains_key (channel_of r t u k)

  held_if :
      (b : Bool) (o : Option S) (m : M)
      → contains_key (if b then kept_after try_send m o else o) ≡ true
      → contains_key o ≡ true
  held_if true none m h = h
  held_if true (some s) m h = refl
  held_if false o m h = h

  expected-held :
      (p : Presence S) (c : Call S M) (t u : String) (k : ConnectionId)
      → contains_key ((expected try_send p c).channel t u k) ≡ true
      → (contains_key (p.channel t u k) ≡ true) ⊎ Opens c t u k
  expected-held p (registers i c s) t u k h =
      ground (arith, eq_of_== i.tenant_id t, eq_of_== i.user_id u, eq_of_== c k)
  expected-held p (unregisters i c) t u k h = ground arith
  expected-held p (joins t' g v) t u k h = inl h
  expected-held p (leaves t' g v) t u k h = inl h
  expected-held p (creates t' g) t u k h = inl h
  expected-held p (deletes t' g) t u k h = inl h
  expected-held p (sends_to_user t' v m) t u k h = inl (held_if _ (p.channel t u k) m h)
  expected-held p (sends_to_group t' g m) t u k h = inl (held_if _ (p.channel t u k) m h)

  -- A call keeps connections or drops them; only `registers` adds one.
  pub apply-held :
      (r : ConnectionRegistry S) (c : Call S M) (t u : String) (k : ConnectionId)
      → IsValid r
      → is_held (apply try_send r c) t u k ≡ true
      → (is_held r t u k ≡ true) ⊎ Opens c t u k
  apply-held r c t u k v h =
      expected-held (view r) c t u k
        (ap (λ p. contains_key (p.channel t u k)) (sym (view-apply try_send r c v)) ∙ h)

  -- A call that opens no connection.
  abbrev pub OpensNone : Call S M → Type 0
  OpensNone c = (t u : String) (k : ConnectionId) → Opens c t u k → ⊥

  pub run-held :
      (r : ConnectionRegistry S) (cs : List (Call S M)) (t u : String) (k : ConnectionId)
      → IsValid r
      → Every OpensNone cs
      → is_held (run try_send r cs) t u k ≡ true
      → is_held r t u k ≡ true
  unfolding run
  run-held r [] t u k v none_opened h = h
  run-held r (c ∷ cs) t u k v none_opened h =
      elim (apply-held r c t u k v
        (run-held (apply try_send r c) cs t u k (apply-IsValid try_send c v) none_opened.1 h)) [
          | inl before ↦ before
          | inr opened ↦ absurd (none_opened.0 t u k opened)
        ]

  -- After `unregisters` its connection is gone, and every other one was there before.
  pub unregisters-held :
      (r : ConnectionRegistry S) (i : Identity) (c k : ConnectionId) (t u : String)
      → IsValid r
      → is_held (apply try_send r (unregisters i c)) t u k ≡ true
      → (is_held r t u k ≡ true) × ((i.tenant_id ≡ t) × (i.user_id ≡ u) × (c ≡ k) → ⊥)
  unregisters-held r i c k t u v h =
      let h' : contains_key ((expected try_send (view r) (unregisters i c)).channel t u k) ≡ true =
        ap (λ p. contains_key (p.channel t u k)) (sym (view-apply try_send r (unregisters i c) v))
        ∙ h in
      (ground arith, λ (same, user, id). ground (arith, ==-refl t, ==-refl u, ==-refl k))

  module _ (queued : S → List M)
      (queued_lem : (s : S) (m : M)
        → let (outcome, s') = try_send s m in queued s' ≡ queue_after outcome (queued s) m)
      (IsAllowed : String → M → Type 0) where
    -- Everything queued for a tenant's connections is allowed for the tenant.
    abbrev pub IsClean : ConnectionRegistry S → Type 0
    IsClean r =
        (t u : String) (k : ConnectionId) (s : S)
        → channel_of r t u k ≡ some s
        → Every (IsAllowed t) (queued s)

    -- What a call sends, or has in a new channel, is allowed for its tenant.
    abbrev pub Sends : Call S M → Type 0
    Sends (registers i c s) = Every (IsAllowed i.tenant_id) (queued s)
    Sends (sends_to_user t u m) = IsAllowed t m
    Sends (sends_to_group t g m) = IsAllowed t m
    Sends _ = Unit

    kept-Every :
        (t : String) (m : M) (x : TrySend × S) (s s' : S)
        → try_send s m ≡ x
        → Every (IsAllowed t) (queued s)
        → IsAllowed t m
        → kept x ≡ some s'
        → Every (IsAllowed t) (queued s')
    kept-Every t m (sent, s₁) s s' e clean ok h =
        let same : s₁ ≡ s' = cc in
        let after : queued s₁ ≡ queued s ++ m ∷ [] = rw e at (queued_lem s m) in
        subst (λ q. Every (IsAllowed t) (queued q)) same
          (subst (λ l. Every (IsAllowed t) l) (sym after)
            (Every-append (IsAllowed t) (queued s) (m ∷ []) clean (ok, tt)))
    kept-Every t m (full, s₁) s s' e clean ok h = cc
    kept-Every t m (closed, s₁) s s' e clean ok h = cc

    kept_if-Every :
        (b : Bool) (t : String) (m : M) (o : Option S) (s' : S)
        → ((s : S) → o ≡ some s → Every (IsAllowed t) (queued s))
        → (b ≡ true → IsAllowed t m)
        → (if b then kept_after try_send m o else o) ≡ some s'
        → Every (IsAllowed t) (queued s')
    kept_if-Every true t m none s' clean ok h = cc
    kept_if-Every true t m (some s) s' clean ok h =
        kept-Every t m (try_send s m) s s' refl (clean s refl) (ok refl) h
    kept_if-Every false t m o s' clean ok h = clean s' h

    in_tenant : (t₀ t : String) (b : Bool) → (t₀ == t) && b ≡ true → t₀ ≡ t
    in_tenant t₀ t b h = ground (arith, eq_of_== t₀ t)

    expected-IsClean :
        (r : ConnectionRegistry S) (c : Call S M) (t u : String) (k : ConnectionId) (s : S)
        → IsClean r
        → Sends c
        → (expected try_send (view r) c).channel t u k ≡ some s
        → Every (IsAllowed t) (queued s)
    expected-IsClean r (registers i c tx) t u k s clean ok h =
        elim (Bool-cases (((i.tenant_id == t) && (i.user_id == u)) && (c == k))) [
          | inl own ↦
              let new : tx ≡ s = ground arith in
              let same : i.tenant_id ≡ t = ground (arith, eq_of_== i.tenant_id t) in
              subst (λ q. Every (IsAllowed t) (queued q)) new
                (subst (λ n. Every (IsAllowed n) (queued tx)) same ok)
          | inr other ↦ clean t u k s (rw other at h)
        ]
    expected-IsClean r (unregisters i c) t u k s clean ok h =
        elim (Bool-cases (((i.tenant_id == t) && (i.user_id == u)) && (c == k))) [
          | inl own ↦ absurd (let e : none ≡ some s = rw own at h in cc)
          | inr other ↦ clean t u k s (rw other at h)
        ]
    expected-IsClean r (joins t' g v) t u k s clean ok h = clean t u k s h
    expected-IsClean r (leaves t' g v) t u k s clean ok h = clean t u k s h
    expected-IsClean r (creates t' g) t u k s clean ok h = clean t u k s h
    expected-IsClean r (deletes t' g) t u k s clean ok h = clean t u k s h
    expected-IsClean r (sends_to_user t' v m) t u k s clean ok h =
        kept_if-Every ((t' == t) && (v == u)) t m (channel_of r t u k) s (clean t u k)
          (λ b. subst (λ n. IsAllowed n m) (in_tenant t' t (v == u) b) ok) h
    expected-IsClean r (sends_to_group t' g m) t u k s clean ok h =
        let inside = is_in ((view r).group t' g) u in
        kept_if-Every ((t' == t) && inside) t m (channel_of r t u k) s (clean t u k)
          (λ b. subst (λ n. IsAllowed n m) (in_tenant t' t inside b) ok) h

    pub apply-IsClean :
        (r : ConnectionRegistry S) (c : Call S M)
        → IsValid r
        → IsClean r
        → Sends c
        → IsClean (apply try_send r c)
    apply-IsClean r c v clean ok t u k s h =
        expected-IsClean r c t u k s clean ok
          (ap (λ p. p.channel t u k) (sym (view-apply try_send r c v)) ∙ h)

    pub run-IsClean :
        (r : ConnectionRegistry S) (cs : List (Call S M))
        → IsValid r
        → IsClean r
        → Every Sends cs
        → IsClean (run try_send r cs)
    unfolding run
    run-IsClean r [] v clean ok = clean
    run-IsClean r (c ∷ cs) v clean ok =
        run-IsClean (apply try_send r c) cs (apply-IsValid try_send c v)
          (apply-IsClean r c v clean ok.0) ok.1
