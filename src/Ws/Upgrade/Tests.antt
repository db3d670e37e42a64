-- ===== src/Ws/Upgrade/Tests.antt =====
-- Two handshakes: with a token that is valid, and with none.
use yappa_core.Common.{
  string_eq, arith, ◌≡◌, refl, String, true, Option, none, some, List, [], ◌∷◌, if◌then◌else◌, ◌==◌,
}
use yappa_core.Auth.{Claims}
use yappa_core.Limits.Sample.{server, nothing}
use yappa_core.Ws.Upgrade.{ws_handler}
use yappa_core.Ws.Upgrade.Query.{query_of, ws_handler-token}
use yappa_core.Ws.Upgrade.Admit.{Answers, ws_handler-Answers}

-- One token is valid, ann's.
abbrev decode : String → Option Claims
decode t =
    if t == "ann1"
    then some (record { tenant_id = "acme"; user_id = "ann"; exp = 9; iss = none; aud = none })
    else none

abbrev version : List (String × String)
version = ("v", "2") ∷ []

-- The parameters as they stand in the URI.
as_written : query_of (("v", "2") ∷ ("token", "ann1") ∷ []) ≡ "v=2&token=ann1"
as_written = refl

ws_handler-token_example :
    ws_handler decode server 1 none (some "v=2&token=ann1") true nothing
    ≡ ws_handler decode server 1 (some "Bearer ann1") none true nothing
ws_handler-token_example =
    ws_handler-token decode server 1 version "ann1" none true nothing
      (((omega arith, tt), ((omega arith, tt), (omega arith, tt))), tt)
      (omega arith, (omega arith, (omega arith, (omega arith, tt))))

ws_handler-Answers_example :
    Answers decode server 1
      (some "Bearer ann1")
      none
      true
      nothing
      (ws_handler decode server 1 (some "Bearer ann1") none true nothing).0
      (ws_handler decode server 1 (some "Bearer ann1") none true nothing).1
ws_handler-Answers_example =
    ws_handler-Answers decode server 1 (some "Bearer ann1") none true nothing
