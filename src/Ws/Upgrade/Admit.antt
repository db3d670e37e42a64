-- ===== src/Ws/Upgrade/Admit.antt =====
-- Whom a handshake lets in, and what it leaves in the limiter's data.
use yappa_core.Common.{
  string_eq, ℕ, ◌≡◌, ◌≢◌, refl, ap, String, Bool, true, false, Option, some, Option-cases,
  Bool-cases, inl, inr,
}
use yappa_core.Auth.{Identity, Claims, Authentication, ok, err, validate_jwt}
use yappa_core.Limits.{acquire}
use yappa_core.Limits.Server.{Redis}
use yappa_core.Ws.Upgrade.{
  Response, unauthorized, too_many_requests, upgraded, token_of, ws_handler, admit,
}

module _ (decode : String → Option Claims) (redis : Redis) (max_users : ℕ) where
  open redis use {Store}

  -- What an answer says of the request.
  abbrev pub Answers : Option String → Option String → Bool → Store → Response → Store → Type 0
  Answers authorization query reachable s unauthorized s' =
      ((token : String) (i : Identity)
        → token_of authorization query ≡ some token
        → validate_jwt decode token ≢ ok i)
      × (s' ≡ s)
  Answers authorization query reachable s too_many_requests s' =
      (token : String) × (i : Identity) × (token_of authorization query ≡ some token)
      × (validate_jwt decode token ≡ ok i)
      × (acquire redis max_users reachable i s ≡ (false, s'))
  Answers authorization query reachable s (upgraded i) s' =
      (token : String) × (token_of authorization query ≡ some token)
      × (validate_jwt decode token ≡ ok i)
      × (acquire redis max_users reachable i s ≡ (true, s'))

  admit-Answers :
      (authorization query : Option String) (reachable : Bool) (s : Store) (token : String)
      (o : Authentication)
      → token_of authorization query ≡ some token
      → validate_jwt decode token ≡ o
      → let (response, s') = admit decode redis max_users o reachable s in
        Answers authorization query reachable s response s'
  unfolding admit
  admit-Answers authorization query reachable s token (err x) e v = (λ t j e' v'. cc, refl)
  admit-Answers authorization query reachable s token (ok i) e v =
      elim (Bool-cases (acquire redis max_users reachable i s).0) [
        | inl lets ↦
            rw lets (token, e, v, ap (λ b. (b, (acquire redis max_users reachable i s).1)) lets)
        | inr bars ↦
            rw bars (token, i, e, v, ap (λ b. (b, (acquire redis max_users reachable i s).1)) bars)
      ]

  -- The handshake answers 401 exactly when the request has no token that is valid, and then leaves the
  -- limiter alone; with a valid token it answers 429 when the limiter refuses the token's user
  -- and upgrades that user's connection when the limiter lets it in.
  pub ws_handler-Answers :
      (authorization query : Option String) (reachable : Bool) (s : Store)
      → let (response, s') = ws_handler decode redis max_users authorization query reachable s in
        Answers authorization query reachable s response s'
  unfolding ws_handler
  ws_handler-Answers authorization query reachable s =
      elim (Option-cases (token_of authorization query)) [
        | inl e ↦ rw (e, ws_handler) (λ t i e' v. cc, refl)
        | inr (token, e) ↦
            rw (e, ws_handler) (admit-Answers authorization query reachable s token _ e refl)
      ]
