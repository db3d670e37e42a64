-- ===== src/Limits/Release.antt =====
-- What `release` does, where Redis can be reached.
use yappa_core.Common.{
  pos, ℕ, suc, ◌≤◌, ◌≡◌, refl, ap, ◌∙◌, String, false, true, some, List, [], ◌∷◌, ◌==◌, string_eq,
  if◌then◌else◌, arith, nat_beq, Bool-cases, inl, inr, ==-refl, eq_of_==,
}
use yappa_core.Auth.{Identity}
use yappa_core.Limits.{online_key, refc_key, release}
use yappa_core.Limits.Server.{Redis, absent, number, as_number, as_set, drop_all, of_list}
use yappa_core.Limits.Users.{
  update, user_of, Tracks, refc_key-==, refc-online, online-refc, online-online, counted_self,
  online_self, contains-drop_all, Once-drop_all,
}

as_set-of_list : (xs : List String) → as_set (of_list xs) ≡ some xs
as_set-of_list [] = refl
as_set-of_list (x ∷ xs) = refl

module _ (redis : Redis) (i : Identity) (s : redis.Store) (xs : List String) (count : String → ℕ)
    (n : ℕ) (d : Tracks redis i.tenant_id s xs count) (one : count i.user_id ≡ suc n) where
  open redis use {Store, value, decr, srem, del}

  counted : Store
  counted = (decr s (refc_key i)).1

  decr_facts :
      ((decr s (refc_key i)).0 ≡ pos n)
      × ((j : String) → value counted j ≡ (if refc_key i == j then number (pos n) else value s j))
  unfolding counted
  decr_facts =
      redis.decr_lem s (refc_key i) (pos (suc n)) (counted_self redis i s xs count d ∙ rw one)
        (ground arith)

  decr_online : (j : Identity) → value counted (online_key j) ≡ value s (online_key j)
  decr_online j = ground (arith, decr_facts.1 (online_key j), refc-online redis i j)

  counted-online : as_set (value counted (online_key i)) ≡ some xs
  counted-online = ap as_set (decr_online i) ∙ online_self redis i s xs count d

  decr-Counts :
      (v : String)
      → as_number (value counted (refc_key (user_of i.tenant_id v)))
        ≡ some (pos (update count i.user_id n v))
  decr-Counts v =
      ground
        (arith, decr_facts.1 (refc_key (user_of i.tenant_id v)), refc_key-== redis i v, d.counted v)

  -- The data after the script, by its two ways out.
  after : Store
  after = if nat_beq n 0 then del (srem counted (online_key i) i.user_id) (refc_key i) else counted

  release-after : release redis true i s ≡ after
  unfolding release after counted
  release-after = ground (arith, decr_facts.0)

  -- The user has other connections.
  counted-Tracks : 1 ≤ n → Tracks redis i.tenant_id counted xs (update count i.user_id n)
  counted-Tracks h = record {
    online = ap as_set (decr_online (user_of i.tenant_id "")) ∙ d.online;
    counted = decr-Counts;
    listed = λ v. ground (arith, d.listed v, eq_of_== i.user_id v, one);
    once = d.once;
  }

  -- That was the user's last connection.
  removed : Store
  removed = del (srem counted (online_key i) i.user_id) (refc_key i)

  removed_value :
      (j : String)
      → value removed j ≡ (
          if refc_key i == j
          then absent
          else (if online_key i == j then of_list (drop_all i.user_id xs) else value counted j))
  unfolding removed
  removed_value j =
      redis.del_lem (srem counted (online_key i) i.user_id) (refc_key i) j
      ∙ rw (redis.srem_lem counted (online_key i) i.user_id xs counted-online j)

  removed-Tracks :
      n ≡ 0 → Tracks redis i.tenant_id removed (drop_all i.user_id xs) (update count i.user_id n)
  removed-Tracks h = record {
    online = ground (
      arith,
      removed_value (online_key (user_of i.tenant_id "")),
      refc-online redis i (user_of i.tenant_id ""),
      online-online redis i,
      as_set-of_list (drop_all i.user_id xs),
    );
    counted = λ v. ground (
      arith,
      removed_value (refc_key (user_of i.tenant_id v)),
      refc_key-== redis i v,
      online-refc redis i (user_of i.tenant_id v),
      decr-Counts v,
    );
    listed = λ v.
        ground
          (arith, d.listed v, contains-drop_all i.user_id v xs, eq_of_== i.user_id v, ==-refl v);
    once = Once-drop_all i.user_id xs d.once;
  }

  -- No other key is touched.
  pub release-elsewhere :
      (j : String)
      → (refc_key i == j) ≡ false
      → (online_key i == j) ≡ false
      → value (release redis true i s) j ≡ value s j
  unfolding after removed
  release-elsewhere j h k =
      rw (release-after, after) (ground (arith, removed_value j, decr_facts.1 j))

-- What `release` does for a user with a counted connection, where Redis answers: one connection
-- fewer, and with the last one the user is no longer online. The other users of the tenant keep
-- their counts.
pub release_lem :
    (redis : Redis) (i : Identity) (s : redis.Store) (xs : List String) (count : String → ℕ) (n : ℕ)
    → Tracks redis i.tenant_id s xs count
    → count i.user_id ≡ suc n
    → Tracks redis i.tenant_id
        (release redis true i s)
        (if nat_beq n 0 then drop_all i.user_id xs else xs)
        (update count i.user_id n)
unfolding after removed
release_lem redis i s xs count n d one = elim (Bool-cases (nat_beq n 0)) [
  | inl last ↦
      rw (release-after redis i s xs count n d one, last, after)
        (removed-Tracks redis i s xs count n d one (ground arith))
  | inr more ↦
      rw (release-after redis i s xs count n d one, more, after)
        (counted-Tracks redis i s xs count n d one (ground arith))
]
