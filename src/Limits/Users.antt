-- ===== src/Limits/Users.antt =====
-- The limiter's data of one tenant, as the set of its online users and their connection counts.
use yappa_core.Common.{
  pos, i64_max, ℕ, suc, ◌≤◌, ◌<◌, ◌≡◌, ◌≢◌, refl, sym, ◌∙◌, String, Bool, true, false, ◌||◌, some,
  List, [], ◌∷◌, ◌==◌, string_eq, if◌then◌else◌, length, contains, arith, leb, ltb, inl, inr,
  ==-refl, ==-false, eq_of_==, ==-cases,
}
use yappa_core.Auth.{Identity}
use yappa_core.Limits.{online_key, refc_key}
use yappa_core.Limits.Server.{Redis, number, as_number, as_set, drop_all}
use yappa_core.Limits.Keys.{refc_key-ne-online_key, refc_key-user}

-- Each user once.
abbrev pub Once : List String → Type 0
Once [] = Unit
Once (x ∷ xs) = (contains x xs ≡ false) × Once xs

pub contains-drop_all :
    (x y : String) (xs : List String)
    → contains y (drop_all x xs) ≡ (if x == y then false else contains y xs)
contains-drop_all x y [] = ground arith
contains-drop_all x y (z ∷ xs) = ground (
  arith,
  contains-drop_all x y xs,
  eq_of_== z x,
  eq_of_== z y,
  eq_of_== x y,
  ==-refl x,
  ==-refl y,
)

pub Once-drop_all : (x : String) (xs : List String) → Once xs → Once (drop_all x xs)
Once-drop_all x [] h = tt
Once-drop_all x (z ∷ xs) h = ground (arith, Once-drop_all x xs h.1, contains-drop_all x z xs)

pub length-drop_all-le : (x : String) (xs : List String) → length (drop_all x xs) ≤ length xs
length-drop_all-le x [] = omega arith
length-drop_all-le x (z ∷ xs) = ground (arith, length-drop_all-le x xs)

-- The counts after a change to one user's.
abbrev pub update : (String → ℕ) → String → ℕ → String → ℕ
update f u n v = if u == v then n else f v

abbrev pub user_of : String → String → Identity
user_of t u = record { tenant_id = t; user_id = u }

module _ (redis : Redis) where
  open redis use {Store, value, incr, decr, scard, sadd, srem, del}

  -- The data say that `xs` are the tenant's online users, and `count` each user's open connections.
  pub record Tracks (t : String) (s : Store) (xs : List String) (count : String → ℕ) : Type 0 where
    pub online : as_set (value s (online_key (user_of t ""))) ≡ some xs
    pub counted : (u : String) → as_number (value s (refc_key (user_of t u))) ≡ some (pos (count u))
    pub listed : (u : String) → contains u xs ≡ leb 1 (count u)
    pub once : Once xs

  pub refc_key-== :
      (i : Identity) (v : String)
      → (refc_key i == refc_key (user_of i.tenant_id v)) ≡ (i.user_id == v)
  refc_key-== i v = elim (==-cases i.user_id v) [
    | inl (e, p) ↦ rw (← p) (==-refl (refc_key i) ∙ sym (==-refl i.user_id))
    | inr (e, p) ↦ ==-false _ _ (λ q. p (refc_key-user i (user_of i.tenant_id v) refl q)) ∙ sym e
  ]

  pub refc-online : (i j : Identity) → (refc_key i == online_key j) ≡ false
  refc-online i j = ==-false _ _ (refc_key-ne-online_key i j)

  pub online-refc : (i j : Identity) → (online_key i == refc_key j) ≡ false
  online-refc i j = ==-false _ _ (λ e. refc_key-ne-online_key j i (sym e))

  pub online-online : (i : Identity) → (online_key i == online_key (user_of i.tenant_id "")) ≡ true
  unfolding online_key
  online-online i = ==-refl (online_key i)

  pub same_online : (i : Identity) → online_key (user_of i.tenant_id "") ≡ online_key i
  unfolding online_key
  same_online i = refl

  -- Whether a user gets in: online already, or there is room.
  abbrev pub admits : ℕ → List String → ℕ → Bool
  admits max_users xs n = leb 1 n || ltb (length xs) max_users

  abbrev pub incremented : Identity → Store → Store
  incremented i s = (incr s (refc_key i)).1

  module _ (i : Identity) (s : Store) (xs : List String) (count : String → ℕ)
      (d : Tracks i.tenant_id s xs count) where
    pub counted_self : as_number (value s (refc_key i)) ≡ some (pos (count i.user_id))
    counted_self = d.counted i.user_id

    pub online_self : as_set (value s (online_key i)) ≡ some xs
    online_self = rw (← same_online i) d.online

    module _ (small : count i.user_id < i64_max) where
      not_max : pos (count i.user_id) ≢ pos i64_max
      not_max e = ground arith

      pub incr_answer : (incr s (refc_key i)).0 ≡ pos (suc (count i.user_id))
      incr_answer = (redis.incr_lem s (refc_key i) _ counted_self not_max).0

      pub incr_value :
          (j : String)
          → value (incremented i s) j
            ≡ (if refc_key i == j then number (pos (suc (count i.user_id))) else value s j)
      incr_value = (redis.incr_lem s (refc_key i) _ counted_self not_max).1

      pub incr_online :
          (j : Identity) → value (incremented i s) (online_key j) ≡ value s (online_key j)
      incr_online j = ground (arith, incr_value (online_key j), refc-online i j)

      pub incr-Counts :
          (v : String)
          → as_number (value (incremented i s) (refc_key (user_of i.tenant_id v)))
            ≡ some (pos (update count i.user_id (suc (count i.user_id)) v))
      incr-Counts v =
          ground
            (arith, incr_value (refc_key (user_of i.tenant_id v)), refc_key-== i v, d.counted v)
