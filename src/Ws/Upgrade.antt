-- ===== src/Ws/Upgrade.antt =====
-- src/server/ws.rs, `ws_handler`: the token of a request, and the answers 401, 429 and the upgrade.
--
-- `authorization` is the value of that header, `none` if it is missing or no visible ASCII; `query` is
-- the query of the request's URI. The map of the parameters keeps the last of two values of a name.
pub mod Query
pub mod Admit
mod Tests
use yappa_core.Common.{
  string_eq, ℕ, String, Bool, Option, none, some, List, [], ◌∷◌, unwrap_or, if◌then◌else◌, split,
  split_once, strip_prefix,
}
use yappa_core.Common.Map.{Map, get, insert}
use yappa_core.Auth.{Identity, Claims, Authentication, ok, err, validate_jwt}
use yappa_core.Limits.Server.{Redis}
use yappa_core.Limits.{acquire}

pub data Response : Type 0 where
  unauthorized : Response
  too_many_requests : Response
  upgraded : Identity → Response

-- `filter_map` with `splitn(2, =)`: a part with no `=` is left out.
abbrev pub keep : Option (String × String) → List (String × String) → List (String × String)
keep none kvs = kvs
keep (some kv) kvs = kv ∷ kvs

abbrev pub pairs : List String → List (String × String)
pairs [] = []
pairs (kv ∷ parts) = keep (split_once "=" kv) (pairs parts)

abbrev pub collect : List (String × String) → Map String String → Map String String
collect [] m = m
collect ((k, v) ∷ kvs) m = collect kvs (insert k v m)

unfoldable pub query_params : String → Map String String
query_params query = collect (pairs (split "&" query)) []

abbrev pub bearer : Option String → Option String
bearer none = none
bearer (some h) = strip_prefix "Bearer " h

abbrev pub or_else : Option String → Option String → Option String
or_else none o = o
or_else (some t) o = some t

unfoldable pub token_of : Option String → Option String → Option String
token_of authorization query =
    or_else (bearer authorization) (get "token" (query_params (unwrap_or query "")))

module _ (decode : String → Option Claims) (redis : Redis) (max_users : ℕ) where
  open redis use {Store}

  -- From the token on.
  admit : Authentication → Bool → Store → Response × Store
  admit (err e) reachable s = (unauthorized, s)
  admit (ok identity) reachable s =
      let (allowed, s') = acquire redis max_users reachable identity s in
      (if allowed then upgraded identity else too_many_requests, s')

  unfoldable pub ws_handler : Option String → Option String → Bool → Store → Response × Store
  unfolding admit validate_jwt
  ws_handler authorization query reachable s = elim (token_of authorization query) [
    | none ↦ (unauthorized, s)
    | some token ↦ admit (validate_jwt decode token) reachable s
  ]
