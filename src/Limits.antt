-- ===== src/Limits.antt =====
-- src/limits/mod.rs: the cap on a tenant's distinct online users, kept in Redis by two Lua scripts.
--
-- The Redis server is the parameter `Redis`: its data, its commands, and what their documentation says.
-- A script runs atomically, so a script is a function on the data. `EVAL` itself can fail; that is
-- the argument `reachable` of `acquire` and `release`.
pub mod Server
pub mod Keys
pub mod Users
pub mod Acquire
pub mod Release
pub mod Cap
pub mod Tenants
pub mod Open
pub mod Balance
pub mod Sample
mod Tests
use yappa_core.Common.{
  ℤ, pos, negsuc, String, Bool, true, false, ℕ, ◌<>◌, ltb, leb, nat_beq, if◌then◌else◌,
}
use yappa_core.Auth.{Identity}
use Server.{Redis}

-- `cnt == 1` and `cnt <= 0`
abbrev is_one : ℤ → Bool
is_one (pos n) = nat_beq n 1
is_one (negsuc n) = false

abbrev is_le_zero : ℤ → Bool
is_le_zero (pos n) = nat_beq n 0
is_le_zero (negsuc n) = true

unfoldable pub online_key : Identity → String
online_key identity = "online:{" <> identity.tenant_id <> "}"

unfoldable pub refc_key : Identity → String
refc_key identity = "conncount:{" <> identity.tenant_id <> "}:" <> identity.user_id

module _ (redis : Redis) where
  open redis use {Store, incr, decr, scard, sadd, srem, del}

  -- The script's answer and the data after it.
  acquire_script : String → String → String → ℕ → Store → ℕ × Store
  acquire_script online refc user maxn s =
      let (cnt, counted) = incr s refc in
      if is_one cnt
      then (if leb maxn (scard counted online)
          then (0, (decr counted refc).1)
          else (1, sadd counted online user))
      else (1, counted)

  release_script : String → String → String → Store → ℕ × Store
  release_script online refc user s =
      let (cnt, counted) = decr s refc in
      if is_le_zero cnt then (1, del (srem counted online user) refc) else (1, counted)

  -- `Ok(1)` allows, another answer refuses, and an error allows with nothing counted.
  unfoldable pub acquire : ℕ → Bool → Identity → Store → Bool × Store
  unfolding acquire_script
  acquire max_users reachable identity s =
      let (answer, s') =
        acquire_script (online_key identity) (refc_key identity) identity.user_id max_users s in
      if reachable then (nat_beq answer 1, s') else (true, s)

  unfoldable pub release : Bool → Identity → Store → Store
  unfolding release_script
  release reachable identity s =
      let (_, s') = release_script (online_key identity) (refc_key identity) identity.user_id s in
      if reachable then s' else s
