-- ===== src/Ws/Upgrade/Query.antt =====
-- The parameters of a query: written out and read back, and the token in them.
use yappa_core.Common.{
  string_eq, ℕ, String, ◌≡◌, refl, sym, ap, ◌∙◌, Option, none, some, List, [], ◌∷◌, ◌++◌, arith,
  unwrap_or, Bool, ◌<>◌, Lacks, Lacks-append, one-append, split, split_once, split-append,
  split-whole, split_once-append, strip_prefix-append,
}
use yappa_core.Common.Map.{Map, get, insert, get-insert}
use yappa_core.Auth.{Claims}
use yappa_core.Limits.Server.{Redis}
use yappa_core.Ws.Upgrade.{pairs, collect, query_params, or_else, token_of, ws_handler}

-- Parameters as a client writes them.
abbrev pub pair_text : String × String → String
pair_text (k, v) = k <> "=" <> v

abbrev pub query_of : List (String × String) → String
query_of [] = ""
query_of (kv ∷ []) = pair_text kv
query_of (kv ∷ q ∷ rest) = pair_text kv <> "&" <> query_of (q ∷ rest)

-- No separator where it would be read as one.
abbrev pub IsPlain : List (String × String) → Type 0
IsPlain [] = Unit
IsPlain ((k, v) ∷ rest) = (Lacks b'=' k × (Lacks b'&' k × Lacks b'&' v)) × IsPlain rest

split_once-pair : (k v : String) → Lacks b'=' k → split_once "=" (pair_text (k, v)) ≡ some (k, v)
split_once-pair k v h =
    ap (λ s. split_once "=" (k <> s)) (one-append "=" v) ∙ split_once-append "=" k v h

pair-Lacks : (k v : String) → Lacks b'&' k → Lacks b'&' v → Lacks b'&' (pair_text (k, v))
pair-Lacks k v h h' =
    Lacks-append b'&' k ("=" <> v) h (Lacks-append b'&' "=" v (omega arith, tt) h')

split-more : (p rest : String) → Lacks b'&' p → split "&" (p <> "&" <> rest) ≡ p ∷ split "&" rest
split-more p rest h = ap (λ s. split "&" (p <> s)) (one-append "&" rest) ∙ split-append "&" p rest h

pairs-query_of :
    (kvs : List (String × String)) → IsPlain kvs → pairs (split "&" (query_of kvs)) ≡ kvs
unfolding split split_once
pairs-query_of [] h = refl
pairs-query_of ((k, v) ∷ []) ((hk, (ak, av)), h) =
    rw (split-whole "&" (pair_text (k, v)) (pair-Lacks k v ak av), split_once-pair k v hk) refl
pairs-query_of ((k, v) ∷ q ∷ rest) ((hk, (ak, av)), h) =
    rw
      (
        split-more (pair_text (k, v)) (query_of (q ∷ rest)) (pair-Lacks k v ak av),
        split_once-pair k v hk,
      )
      (ap (λ l. (k, v) ∷ l) (pairs-query_of (q ∷ rest) h))

collect-append :
    (xs ys : List (String × String)) (m : Map String String)
    → collect (xs ++ ys) m ≡ collect ys (collect xs m)
collect-append [] ys m = refl
collect-append ((k, v) ∷ xs) ys m = collect-append xs ys (insert k v m)

IsPlain-append : (xs ys : List (String × String)) → IsPlain xs → IsPlain ys → IsPlain (xs ++ ys)
IsPlain-append [] ys h h' = h'
IsPlain-append (x ∷ xs) ys h h' = (h.0, IsPlain-append xs ys h.1 h')

-- The parameters that a client writes are the parameters that the handler reads, in order.
pub query_params-query_of :
    (kvs : List (String × String)) → IsPlain kvs → query_params (query_of kvs) ≡ collect kvs []
unfolding query_params
query_params-query_of kvs h = ap (λ l. collect l []) (pairs-query_of kvs h)

query_token :
    (kvs : List (String × String)) (t : String)
    → IsPlain kvs
    → Lacks b'&' t
    → get "token" (query_params (query_of (kvs ++ ("token", t) ∷ []))) ≡ some t
query_token kvs t h ht =
    let plain : IsPlain (("token", t) ∷ []) = (
      (
        (omega arith, (omega arith, (omega arith, (omega arith, (omega arith, tt))))),
        ((omega arith, (omega arith, (omega arith, (omega arith, (omega arith, tt))))), ht),
      ),
      tt,
    ) in
    ap (get "token")
      (query_params-query_of _ (IsPlain-append kvs _ h plain) ∙ collect-append kvs _ [])
    ∙ get-insert "token" "token" t (collect kvs [])

same_token :
    (kvs : List (String × String)) (t : String) (query : Option String)
    → IsPlain kvs
    → Lacks b'&' t
    → token_of none (some (query_of (kvs ++ ("token", t) ∷ [])))
      ≡ token_of (some ("Bearer " <> t)) query
unfolding token_of
same_token kvs t query h ht =
    query_token kvs t h ht
    ∙ ap (λ o. or_else o (get "token" (query_params (unwrap_or query ""))))
        (sym (strip_prefix-append "Bearer " t))

-- The two ways to hand over a token are one: as the last parameter of a query with no Authorization header,
-- or as a bearer token in that header, whatever the query then is.
pub ws_handler-token :
    (decode : String → Option Claims) (redis : Redis) (max_users : ℕ) (kvs : List (String × String))
    (t : String) (query : Option String) (reachable : Bool) (s : redis.Store)
    → IsPlain kvs
    → Lacks b'&' t
    → ws_handler decode redis max_users none
        (some (query_of (kvs ++ ("token", t) ∷ [])))
        reachable
        s
      ≡ ws_handler decode redis max_users (some ("Bearer " <> t)) query reachable s
unfolding ws_handler
ws_handler-token decode redis max_users kvs t query reachable s h ht =
    rw (same_token kvs t query h ht, ws_handler) refl
