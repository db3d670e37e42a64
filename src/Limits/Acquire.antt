-- ===== src/Limits/Acquire.antt =====
-- What `acquire` answers and does, where Redis can be reached.
use yappa_core.Common.{
  pos, i64_max, ℕ, suc, ◌≤◌, ◌<◌, ◌≡◌, refl, ap, ◌∙◌, String, false, ◌==◌, true, some, List,
  string_eq, if◌then◌else◌, length, arith, leb, ltb, Bool-cases, inl, inr, ==-refl, eq_of_==,
}
use yappa_core.Auth.{Identity}
use yappa_core.Limits.{online_key, refc_key, acquire}
use yappa_core.Limits.Server.{Redis, as_set, add, number}
use yappa_core.Limits.Users.{
  update, user_of, Tracks, admits, refc_key-==, refc-online, online-refc, online-online,
  online_self, incremented, incr_answer, incr_online, incr-Counts, incr_value,
}

module _ (redis : Redis) (i : Identity) (s : redis.Store) (xs : List String) (count : String → ℕ)
    (d : Tracks redis i.tenant_id s xs count) (small : count i.user_id < i64_max) where
  open redis use {Store, value, incr, decr, scard, sadd}

  counted : Store
  counted = incremented redis i s

  -- The data after the script, by its three ways out.
  after : ℕ → Store
  after max_users =
      if leb 1 (count i.user_id)
      then counted
      else (if ltb (length xs) max_users
          then sadd counted (online_key i) i.user_id
          else (decr counted (refc_key i)).1)

  counted-online : as_set (value counted (online_key i)) ≡ some xs
  unfolding counted
  counted-online =
      ap as_set (incr_online redis i s xs count d small i) ∙ online_self redis i s xs count d

  acquire-after :
      (max_users : ℕ)
      → acquire redis max_users true i s
        ≡ (admits redis max_users xs (count i.user_id), after max_users)
  unfolding acquire after counted
  acquire-after max_users = ground (
    arith,
    incr_answer redis i s xs count d small,
    redis.scard_lem counted (online_key i) xs counted-online,
  )

  -- A user who is online already: one more connection.
  counted-Tracks :
      1 ≤ count i.user_id
      → Tracks redis i.tenant_id counted xs (update count i.user_id (suc (count i.user_id)))
  unfolding counted
  counted-Tracks h = record {
    online = ap as_set (incr_online redis i s xs count d small (user_of i.tenant_id "")) ∙ d.online;
    counted = incr-Counts redis i s xs count d small;
    listed = λ v. ground (arith, d.listed v, eq_of_== i.user_id v);
    once = d.once;
  }

  -- A new user with room for them.
  added-Tracks :
      count i.user_id ≡ 0
      → Tracks redis i.tenant_id
          (sadd counted (online_key i) i.user_id)
          (add i.user_id xs)
          (update count i.user_id (suc (count i.user_id)))
  unfolding counted
  added-Tracks h =
      let written = redis.sadd_lem counted (online_key i) i.user_id xs counted-online in
      record {
        online = ground (
          arith,
          written (online_key (user_of i.tenant_id "")),
          online-online redis i,
          d.listed i.user_id,
        );
        counted = λ v. ground (
          arith,
          written (refc_key (user_of i.tenant_id v)),
          online-refc redis i (user_of i.tenant_id v),
          incr-Counts redis i s xs count d small v,
        );
        listed = λ v. ground (arith, d.listed v, d.listed i.user_id, eq_of_== i.user_id v);
        once = ground (arith, d.once, d.listed i.user_id);
      }

  -- A new user with no room: the count is taken back.
  refused-Tracks :
      count i.user_id ≡ 0 → Tracks redis i.tenant_id (decr counted (refc_key i)).1 xs count
  unfolding counted
  refused-Tracks h =
      let back =
        redis.decr_lem counted (refc_key i) (pos (suc (count i.user_id)))
          (ground (arith, incr-Counts redis i s xs count d small i.user_id, ==-refl i.user_id))
          (ground arith) in
      record {
        online = ground (
          arith,
          back.1 (online_key (user_of i.tenant_id "")),
          refc-online redis i (user_of i.tenant_id ""),
          d.online,
          incr_online redis i s xs count d small (user_of i.tenant_id ""),
        );
        counted = λ v. ground (
          arith,
          back.1 (refc_key (user_of i.tenant_id v)),
          refc_key-== redis i v,
          eq_of_== i.user_id v,
          d.counted v,
          incr-Counts redis i s xs count d small v,
        );
        listed = d.listed;
        once = d.once;
      }

  taken_back :
      (j : String)
      → value (decr counted (refc_key i)).1 j
        ≡ (if refc_key i == j then number (pos (count i.user_id)) else value counted j)
  unfolding counted
  taken_back =
      (redis.decr_lem counted (refc_key i) (pos (suc (count i.user_id)))
        (ground (arith, incr-Counts redis i s xs count d small i.user_id, ==-refl i.user_id))
        (ground arith)).1

  -- No other key is touched.
  pub acquire-elsewhere :
      (max_users : ℕ) (j : String)
      → (refc_key i == j) ≡ false
      → (online_key i == j) ≡ false
      → value (acquire redis max_users true i s).1 j ≡ value s j
  unfolding after counted
  acquire-elsewhere max_users j h k = rw (acquire-after max_users) (
      ground (
        arith,
        incr_value redis i s xs count d small j,
        redis.sadd_lem counted (online_key i) i.user_id xs counted-online j,
        taken_back j,
      ))

-- What `acquire` does, where Redis answers. It lets the user in exactly if the user is online
-- already or fewer than `max_users` users are; then the user is online with one more connection, and
-- otherwise nothing changes. The other users of the tenant keep their counts.
pub acquire_lem :
    (redis : Redis) (max_users : ℕ) (i : Identity) (s : redis.Store) (xs : List String)
    (count : String → ℕ)
    → Tracks redis i.tenant_id s xs count
    → count i.user_id < i64_max
    → let (allowed, s') = acquire redis max_users true i s in
      (allowed ≡ admits redis max_users xs (count i.user_id))
      × Tracks redis i.tenant_id s'
          (if allowed then add i.user_id xs else xs)
          (if allowed then update count i.user_id (suc (count i.user_id)) else count)
unfolding after
acquire_lem redis max_users i s xs count d small =
    let e = acquire-after redis i s xs count d small max_users in rw e (refl, by_cases)
  where
    n : ℕ
    n = count i.user_id

    by_cases :
        Tracks redis i.tenant_id
          (after redis i s xs count d small max_users)
          (if admits redis max_users xs n then add i.user_id xs else xs)
          (if admits redis max_users xs n then update count i.user_id (suc n) else count)
    by_cases = elim (Bool-cases (leb 1 n)) [
      | inl known ↦
          rw (known, after, d.listed i.user_id ∙ known)
            (counted-Tracks redis i s xs count d small (ground arith))
      | inr new ↦ elim (Bool-cases (ltb (length xs) max_users)) [
        | inl room ↦ rw (new, room, after) (added-Tracks redis i s xs count d small (ground arith))
        | inr full ↦
            rw (new, full, after) (refused-Tracks redis i s xs count d small (ground arith))
      ]
    ]
