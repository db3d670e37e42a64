-- ===== src/Limits/Cap.antt =====
-- The cap over a history of calls, and what a call while Redis cannot be reached does to it.
use yappa_core.Common.{
  pos, i64_max, ℕ, suc, ◌≤◌, ◌<◌, ◌≡◌, refl, ap, String, true, false, some, List, [], string_eq,
  if◌then◌else◌, length, arith, nat_beq,
}
use yappa_core.Auth.{Identity}
use yappa_core.Limits.{online_key, refc_key, acquire, release}
use yappa_core.Limits.Server.{Redis, absent, as_number, as_set, add, drop_all}
use yappa_core.Limits.Users.{Once, update, user_of, Tracks, length-drop_all-le}
use yappa_core.Limits.Acquire.{acquire_lem}
use yappa_core.Limits.Release.{release_lem}

module _ (redis : Redis) (max_users : ℕ) (t : String) where
  open redis use {Store, value}

  -- The data after some calls for one tenant, from data with nothing of the tenant. A user's
  -- connection is released only if one is counted.
  pub data History : Store → ℕ → Type 0 where
    fresh :
        (s : Store)
        → value s (online_key (user_of t "")) ≡ absent
        → ((u : String) → value s (refc_key (user_of t u)) ≡ absent)
        → History s 0
    acquires :
        {s : Store} {calls : ℕ} (u : String)
        → History s calls
        → History (acquire redis max_users true (user_of t u) s).1 (suc calls)
    releases :
        {s : Store} {calls : ℕ} (u : String) (n : ℕ)
        → as_number (value s (refc_key (user_of t u))) ≡ some (pos (suc n))
        → History s calls
        → History (release redis true (user_of t u) s) (suc calls)

  -- The data are in order, with at most `max_users` users and no count above the number of calls.
  pub record IsCapped (s : Store) (calls : ℕ) : Type 0 where
    pub xs : List String
    pub count : String → ℕ
    pub tracks : Tracks redis t s xs count
    pub capped : length xs ≤ max_users
    pub bounded : (u : String) → count u ≤ calls

  fresh-IsCapped :
      (s : Store)
      → value s (online_key (user_of t "")) ≡ absent
      → ((u : String) → value s (refc_key (user_of t u)) ≡ absent)
      → IsCapped s 0
  fresh-IsCapped s e h = record {
    xs = [];
    count = λ u. 0;
    tracks = record {
      online = ap as_set e;
      counted = λ u. ap as_number (h u);
      listed = λ u. refl;
      once = tt;
    };
    capped = omega arith;
    bounded = λ u. omega arith;
  }

  acquire-IsCapped :
      (s : Store) (calls : ℕ) (u : String)
      → calls < i64_max
      → IsCapped s calls
      → IsCapped (acquire redis max_users true (user_of t u) s).1 (suc calls)
  acquire-IsCapped s calls u small c =
      let low : c.count u < i64_max = omega (arith, c.bounded u) in
      let (answer, tracks) =
        acquire_lem redis max_users (user_of t u) s c.xs c.count c.tracks low in
      let ok = (acquire redis max_users true (user_of t u) s).0 in
      record {
        xs = if ok then add u c.xs else c.xs;
        count = if ok then update c.count u (suc (c.count u)) else c.count;
        tracks = tracks;
        capped = ground (arith, c.capped, answer, c.tracks.listed u);
        bounded = λ v. ground (arith, c.bounded v, c.bounded u);
      }

  release-IsCapped :
      (s : Store) (calls : ℕ) (u : String) (n : ℕ)
      → as_number (value s (refc_key (user_of t u))) ≡ some (pos (suc n))
      → IsCapped s calls
      → IsCapped (release redis true (user_of t u) s) (suc calls)
  release-IsCapped s calls u n e c =
      let one : c.count u ≡ suc n = ground (arith, c.tracks.counted u) in
      record {
        xs = if nat_beq n 0 then drop_all u c.xs else c.xs;
        count = update c.count u n;
        tracks = release_lem redis (user_of t u) s c.xs c.count n c.tracks one;
        capped = ground (arith, c.capped, length-drop_all-le u c.xs);
        bounded = λ v. ground (arith, c.bounded v, c.bounded u);
      }

  History-IsCapped : {s : Store} {calls : ℕ} → History s calls → calls < i64_max → IsCapped s calls
  History-IsCapped (fresh s e h) small = fresh-IsCapped s e h
  History-IsCapped (acquires {s} {calls} u h) small =
      acquire-IsCapped s calls u (omega arith) (History-IsCapped h (omega arith))
  History-IsCapped (releases {s} {calls} u n e h) small =
      release-IsCapped s calls u n e (History-IsCapped h (omega arith))

-- Whatever the order of the calls, a tenant never has more than `max_users` users online, each
-- listed once, as long as Redis answers and there were fewer than 2^63 - 1 calls.
pub History-capped :
    (redis : Redis) (max_users : ℕ) (t : String) {s : redis.Store} {calls : ℕ} (xs : List String)
    → History redis max_users t s calls
    → calls < i64_max
    → as_set (redis.value s (online_key (user_of t ""))) ≡ some xs
    → (length xs ≤ max_users) × Once xs
History-capped redis max_users t xs h small e =
    let c = History-IsCapped redis max_users t h small in
    let same : c.xs ≡ xs = ground (arith, c.tracks.online) in rw (← same) (c.capped, c.tracks.once)

-- A connection that is let in while Redis cannot be reached is not counted, but its release is: when it
-- closes, a user who has one other open connection is taken off the tenant's online users.
pub release-of-uncounted :
    (redis : Redis) (max_users : ℕ) (i : Identity) (s : redis.Store) (xs : List String)
    (count : String → ℕ)
    → Tracks redis i.tenant_id s xs count
    → count i.user_id ≡ 1
    → let (allowed, s') = acquire redis max_users false i s in
      (allowed ≡ true)
      × Tracks redis i.tenant_id
          (release redis true i s')
          (drop_all i.user_id xs)
          (update count i.user_id 0)
unfolding acquire
release-of-uncounted redis max_users i s xs count d one =
    (refl, release_lem redis i s xs count 0 d one)
