-- ===== src/Limits/Balance.antt =====
-- A connection that is let in and closed again.
use yappa_core.Common.{
  string_eq, ℕ, suc, ◌<◌, ◌≡◌, refl, fun_ext, String, true, false, List, [], ◌∷◌, if◌then◌else◌,
  contains, i64_max, arith, leb, nat_beq, eq_of_==, ==-refl,
}
use yappa_core.Auth.{Identity}
use yappa_core.Limits.{acquire, release}
use yappa_core.Limits.Server.{Redis, add, drop_all}
use yappa_core.Limits.Users.{Tracks, update}
use yappa_core.Limits.Acquire.{acquire_lem}
use yappa_core.Limits.Release.{release_lem}

drop_all-absent : (u : String) (xs : List String) → contains u xs ≡ false → drop_all u xs ≡ xs
drop_all-absent u [] h = refl
drop_all-absent u (x ∷ xs) h = ground (arith, drop_all-absent u xs)

added_and_dropped :
    (u : String) (xs : List String) (n : ℕ)
    → contains u xs ≡ leb 1 n
    → (if nat_beq n 0 then drop_all u (add u xs) else add u xs) ≡ xs
added_and_dropped u xs n h = ground (arith, drop_all-absent u xs, ==-refl u)

update-back :
    (count : String → ℕ) (u : String) (m : ℕ) → update (update count u m) u (count u) ≡ count
update-back count u m = fun_ext (λ v. ground (arith, eq_of_== u v))

-- A connection that is let in and then closed leaves the limiter as it was: the tenant has the same
-- online users, and every user as many connections as before, where Redis answers both calls.
pub release-acquire :
    (redis : Redis) (max_users : ℕ) (i : Identity) (s : redis.Store) (xs : List String)
    (count : String → ℕ)
    → Tracks redis i.tenant_id s xs count
    → count i.user_id < i64_max
    → (acquire redis max_users true i s).0 ≡ true
    → Tracks redis i.tenant_id (release redis true i (acquire redis max_users true i s).1) xs count
release-acquire redis max_users i s xs count d small allowed =
    let u = i.user_id in
    let opened : Tracks redis i.tenant_id (acquire redis max_users true i s).1 (add u xs)
        (update count u (suc (count u))) =
      rw allowed at (acquire_lem redis max_users i s xs count d small).1 in
    let closed =
      release_lem redis i _ (add u xs) (update count u (suc (count u))) (count u) opened
        (ground (arith, ==-refl u)) in
    rw (added_and_dropped u xs (count u) (d.listed u), update-back count u (suc (count u))) at
      closed
