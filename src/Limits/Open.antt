-- ===== src/Limits/Open.antt =====
-- The limiter's data of all tenants against the connections that are open.
use yappa_core.Common.{
  string_eq, ℕ, suc, ◌≤◌, ◌<◌, ◌≡◌, refl, sym, ap, ◌∙◌, subst, fun_ext, String, Bool, true, false,
  ◌&&◌, List, [], ◌∷◌, ◌++◌, ◌==◌, ==-cases, ==-refl, eq_of_==, ne_of_==, if◌then◌else◌, length,
  inl, inr, Lacks, arith, i64_max, nat_beq,
}
use yappa_core.Auth.{Identity}
use yappa_core.Limits.{acquire, release, online_key, refc_key}
use yappa_core.Limits.Server.{Redis, absent, as_set, as_number, add, drop_all}
use yappa_core.Limits.Users.{user_of, Tracks, update, length-drop_all-le, admits}
use yappa_core.Limits.Acquire.{acquire_lem, acquire-elsewhere}
use yappa_core.Limits.Release.{release_lem, release-elsewhere}
use yappa_core.Limits.Tenants.{SameElsewhere, Tracks-SameElsewhere}

-- How many connections of a user are open.
abbrev pub open_of : String → List Identity → String → ℕ
open_of t [] u = 0
open_of t (i ∷ is) u =
    let rest = open_of t is u in if i.tenant_id == t && i.user_id == u then suc rest else rest

open_of-le : (t : String) (is : List Identity) (u : String) → open_of t is u ≤ length is
open_of-le t [] u = omega arith
open_of-le t (i ∷ is) u = ground (arith, open_of-le t is u)

open_of-opened :
    (i : Identity) (is : List Identity)
    → update (open_of i.tenant_id is) i.user_id (suc (open_of i.tenant_id is i.user_id))
      ≡ open_of i.tenant_id (i ∷ is)
open_of-opened i is = fun_ext (λ u. ground (arith, ==-refl i.tenant_id, eq_of_== i.user_id u))

open_of-middle :
    (t : String) (before : List Identity) (i : Identity) (after : List Identity) (u : String)
    → open_of t (before ++ i ∷ after) u ≡ open_of t (i ∷ before ++ after) u
open_of-middle t [] i after u = refl
open_of-middle t (j ∷ before) i after u = ground (arith, open_of-middle t before i after u)

open_of-elsewhere :
    (t : String) (i : Identity) (is : List Identity)
    → (i.tenant_id == t) ≡ false
    → open_of t (i ∷ is) ≡ open_of t is
open_of-elsewhere t i is h = fun_ext (λ u. ground arith)

module _ (redis : Redis) (max_users : ℕ) where
  open redis use {Store}

  -- The data of a tenant count just these open connections, of at most `max_users` users.
  pub record Counts (is : List Identity) (s : Store) (t : String) : Type 0 where
    pub xs : List String
    pub tracks : Tracks redis t s xs (open_of t is)
    pub capped : length xs ≤ max_users

  Counts-change :
      (is js : List Identity) (s : Store) (t : String)
      → open_of t is ≡ open_of t js
      → Counts is s t
      → Counts js s t
  Counts-change is js s t e c = record {
    xs = c.xs;
    tracks = subst (Tracks redis t s c.xs) e c.tracks;
    capped = c.capped;
  }

  Counts-elsewhere :
      (i : Identity) (is : List Identity) (s s' : Store) (t : String)
      → Lacks b'}' i.tenant_id
      → Lacks b'}' t
      → (i.tenant_id == t) ≡ false
      → SameElsewhere redis i s s'
      → Counts is s t
      → Counts is s' t
  Counts-elsewhere i is s s' t hi ht other same c = record {
    xs = c.xs;
    tracks =
        Tracks-SameElsewhere redis i t s s' c.xs (open_of t is) hi ht (ne_of_== i.tenant_id t other)
          same c.tracks;
    capped = c.capped;
  }

  -- Every tenant's, if its name has no closing brace.
  abbrev pub AllCount : List Identity → Store → Type 0
  AllCount is s = (t : String) → Lacks b'}' t → Counts is s t

  pub fresh-Counts :
      (is : List Identity) (s : Store) (t : String)
      → is ≡ []
      → redis.value s (online_key (user_of t "")) ≡ absent
      → ((u : String) → redis.value s (refc_key (user_of t u)) ≡ absent)
      → Counts is s t
  fresh-Counts is s t e h k =
      subst (λ is. Counts is s t) (sym e)
        (record {
          xs = [];
          tracks = record {
            online = ap as_set h;
            counted = λ u. ap as_number (k u);
            listed = λ u. refl;
            once = tt;
          };
          capped = omega arith;
        })

  -- The connections that are open once the limiter has answered.
  abbrev pub opens : Bool → Identity → List Identity → List Identity
  opens true i is = i ∷ is
  opens false i is = is

  opens-elsewhere :
      (b : Bool) (i : Identity) (is : List Identity) (t : String)
      → (i.tenant_id == t) ≡ false
      → open_of t (opens b i is) ≡ open_of t is
  opens-elsewhere true i is t h = open_of-elsewhere t i is h
  opens-elsewhere false i is t h = refl

  acquire-Counts-own :
      (i : Identity) (is : List Identity) (s : Store)
      → length is < i64_max
      → Counts is s i.tenant_id
      → let (allowed, s') = acquire redis max_users true i s in
        Counts (opens allowed i is) s' i.tenant_id
  acquire-Counts-own i is s small c =
      let few : open_of i.tenant_id is i.user_id < i64_max =
        omega (arith, open_of-le i.tenant_id is i.user_id) in
      let (answer, tracks) =
        acquire_lem redis max_users i s c.xs (open_of i.tenant_id is) c.tracks few in
      by_answer (acquire redis max_users true i s).0 answer tracks
    where
      s' : Store
      s' = (acquire redis max_users true i s).1

      by_answer :
          (ok : Bool)
          → ok ≡ admits redis max_users c.xs (open_of i.tenant_id is i.user_id)
          → Tracks redis i.tenant_id s' (if ok then add i.user_id c.xs else c.xs) (
              if ok
              then update
                  (open_of i.tenant_id is)
                  i.user_id
                  (suc (open_of i.tenant_id is i.user_id))
              else open_of i.tenant_id is)
          → Counts (opens ok i is) s' i.tenant_id
      by_answer true answer d = record {
        xs = add i.user_id c.xs;
        tracks = subst (Tracks redis i.tenant_id s' (add i.user_id c.xs)) (open_of-opened i is) d;
        capped = ground (arith, c.capped, c.tracks.listed i.user_id);
      }
      by_answer false answer d = record { xs = c.xs; tracks = d; capped = c.capped }

  pub acquire-AllCount :
      (i : Identity) (is : List Identity) (s : Store)
      → Lacks b'}' i.tenant_id
      → length is < i64_max
      → AllCount is s
      → let (allowed, s') = acquire redis max_users true i s in AllCount (opens allowed i is) s'
  acquire-AllCount i is s hi small all t ht =
      let (b, s') = acquire redis max_users true i s in
      let own = all i.tenant_id hi in
      elim (==-cases i.tenant_id t) [
        | inl (same, e) ↦ subst (Counts (opens b i is) s') e (acquire-Counts-own i is s small own)
        | inr (other, ne) ↦
            Counts-change is (opens b i is) s' t (sym (opens-elsewhere b i is t other)) (
              Counts-elsewhere i is s s' t hi ht other
                (acquire-elsewhere redis i s own.xs (open_of i.tenant_id is) own.tracks
                  (omega (arith, open_of-le i.tenant_id is i.user_id)) max_users)
                (all t ht))
      ]

  closed :
      (before : List Identity) (i : Identity) (after : List Identity)
      → let n = open_of i.tenant_id (before ++ after) i.user_id in
        (open_of i.tenant_id (before ++ i ∷ after) i.user_id ≡ suc n)
        × (update (open_of i.tenant_id (before ++ i ∷ after)) i.user_id n
            ≡ open_of i.tenant_id (before ++ after))
  closed before i after = (
    ground (
      arith,
      open_of-middle i.tenant_id before i after i.user_id,
      ==-refl i.tenant_id,
      ==-refl i.user_id,
    ),
    fun_ext
        (λ u. ground (arith, open_of-middle i.tenant_id before i after u, eq_of_== i.user_id u)),
  )

  release-Counts-own :
      (before : List Identity) (i : Identity) (after : List Identity) (s : Store)
      → Counts (before ++ i ∷ after) s i.tenant_id
      → Counts (before ++ after) (release redis true i s) i.tenant_id
  release-Counts-own before i after s c =
      let n = open_of i.tenant_id (before ++ after) i.user_id in
      let (one, left) = closed before i after in
      record {
        xs = if nat_beq n 0 then drop_all i.user_id c.xs else c.xs;
        tracks =
            subst (Tracks redis i.tenant_id (release redis true i s) _) left (
              release_lem redis i s c.xs (open_of i.tenant_id (before ++ i ∷ after)) n c.tracks
                one);
        capped = ground (arith, c.capped, length-drop_all-le i.user_id c.xs);
      }

  closed-elsewhere :
      (before : List Identity) (i : Identity) (after : List Identity) (t : String)
      → (i.tenant_id == t) ≡ false
      → open_of t (before ++ i ∷ after) ≡ open_of t (before ++ after)
  closed-elsewhere before i after t h =
      fun_ext (open_of-middle t before i after) ∙ open_of-elsewhere t i (before ++ after) h

  pub release-AllCount :
      (before : List Identity) (i : Identity) (after : List Identity) (s : Store)
      → Lacks b'}' i.tenant_id
      → AllCount (before ++ i ∷ after) s
      → AllCount (before ++ after) (release redis true i s)
  release-AllCount before i after s hi all t ht =
      let own = all i.tenant_id hi in
      elim (==-cases i.tenant_id t) [
        | inl (same, e) ↦
            subst (Counts (before ++ after) (release redis true i s)) e
              (release-Counts-own before i after s own)
        | inr (other, ne) ↦
            Counts-change (before ++ i ∷ after) (before ++ after) (release redis true i s) t
              (closed-elsewhere before i after t other)
              (Counts-elsewhere i (before ++ i ∷ after) s (release redis true i s) t hi ht other
                (release-elsewhere redis i s own.xs (open_of i.tenant_id (before ++ i ∷ after))
                  (open_of i.tenant_id (before ++ after) i.user_id) own.tracks
                  ((closed before i after).0))
                (all t ht))
      ]
