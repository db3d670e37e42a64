-- ===== src/Auth/Genuine.antt =====
-- What a token must be for `authenticate` to take it.
use yappa_core.Common.{
  string_eq, ℕ, ◌+◌, ◌≤◌, String, Bool, true, Option, none, some, List, [], ◌∷◌, ◌≡◌, refl, sym, ap,
  ◌∙◌, contains, eq_of_==, Any, inl, inr, arith, subst,
}
use yappa_core.Auth.{Identity, Claims, ok, validate_jwt}
use yappa_core.Auth.Config.{Validation, Jwt, new_config, new, authenticate}

-- What jsonwebtoken's documentation says of a token that `decode` takes: it is signed by one of the
-- algorithms, it has not expired by more than the leeway, and an issuer or audience that is set and
-- required is one of those that are set. The leeway is 60 seconds at first.
pub record IsDocumented (jwt : Jwt) (is_signed : jwt.DecodingKey → jwt.Algorithm → String → Bool)
    : Type 0 where
  pub leeway-new : (jwt.new_validation jwt.hs256).leeway ≡ 60
  pub signed :
      (key : jwt.DecodingKey) (v : Validation jwt.Algorithm) (now : ℕ) (token : String)
      (claims : Claims)
      → jwt.decode key v now token ≡ some claims
      → Any (λ algorithm. is_signed key algorithm token ≡ true) v.algorithms
  pub unexpired :
      (key : jwt.DecodingKey) (v : Validation jwt.Algorithm) (now : ℕ) (token : String)
      (claims : Claims)
      → jwt.decode key v now token ≡ some claims
      → v.validate_exp ≡ true
      → now ≤ claims.exp + v.leeway
  pub issued :
      (key : jwt.DecodingKey) (v : Validation jwt.Algorithm) (now : ℕ) (token : String)
      (claims : Claims) (issuers : List String)
      → jwt.decode key v now token ≡ some claims
      → v.iss ≡ some issuers
      → contains "iss" v.required_spec_claims ≡ true
      → (issuer : String) × (claims.iss ≡ some issuer) × (contains issuer issuers ≡ true)
  pub addressed :
      (key : jwt.DecodingKey) (v : Validation jwt.Algorithm) (now : ℕ) (token : String)
      (claims : Claims) (audiences : List String)
      → jwt.decode key v now token ≡ some claims
      → v.aud ≡ some audiences
      → contains "aud" v.required_spec_claims ≡ true
      → (audience : String) × (claims.aud ≡ some audience) × (contains audience audiences ≡ true)

module _ (jwt : Jwt) (is_signed : jwt.DecodingKey → jwt.Algorithm → String → Bool)
    (documented : IsDocumented jwt is_signed) where
  open jwt use {hs256, from_secret}

  -- The claims behind an identity, and what is checked of them.
  pub record Genuine (secret issuer audience : String) (now : ℕ) (token : String)
      (identity : Identity) : Type 0 where
    pub claims : Claims
    pub is_genuine : is_signed (from_secret secret) hs256 token ≡ true
    pub tenant : claims.tenant_id ≡ identity.tenant_id
    pub user : claims.user_id ≡ identity.user_id
    pub issuer_lem : claims.iss ≡ some issuer
    pub audience_lem : claims.aud ≡ some audience
    pub expiry : now ≤ claims.exp + 60

  contains-one : (x y : String) → contains x (y ∷ []) ≡ true → x ≡ y
  contains-one x y h = sym (eq_of_== y x (ground arith))

  Genuine-claims :
      (secret issuer audience : String) (now : ℕ) (token : String) (claims : Claims)
      → jwt.decode
          (from_secret secret)
          ((new_config jwt secret issuer audience).validation)
          now
          token
        ≡ some claims
      → Genuine secret issuer audience now token
          (record { tenant_id = claims.tenant_id; user_id = claims.user_id })
  unfolding new_config
  Genuine-claims secret issuer audience now token claims e =
      let v = (new_config jwt secret issuer audience).validation in
      let key = from_secret secret in
      let (i, named, one) = documented.issued key v now token claims (issuer ∷ []) e refl refl in
      let (a, meant, one') =
        documented.addressed key v now token claims (audience ∷ []) e refl refl in
      record {
        claims = claims;
        is_genuine = by_hs256 (documented.signed key v now token claims e);
        tenant = refl;
        user = refl;
        issuer_lem = named ∙ ap some (contains-one i issuer one);
        audience_lem = meant ∙ ap some (contains-one a audience one');
        expiry =
            subst (λ leeway. now ≤ claims.exp + leeway) documented.leeway-new
              (documented.unexpired key v now token claims e refl);
      }
    where
      by_hs256 :
          Any (λ algorithm. is_signed (from_secret secret) algorithm token ≡ true) (hs256 ∷ [])
          → is_signed (from_secret secret) hs256 token ≡ true
      by_hs256 (inl h) = h
      by_hs256 (inr h) = absurd h

  ok-inj : (i j : Identity) → ok i ≡ ok j → i ≡ j
  ok-inj i j h = cc

  -- A token authenticates an identity only if it is signed with the secret by HS256, has the configured
  -- issuer and the configured audience, has not expired more than 60 seconds ago, and claims this
  -- very tenant and user.
  pub authenticate-Genuine :
      (secret issuer audience : String) (now : ℕ) (token : String) (identity : Identity)
      → authenticate jwt (new jwt secret issuer audience) now token ≡ ok identity
      → Genuine secret issuer audience now token identity
  unfolding authenticate new validate_jwt new_config
  authenticate-Genuine secret issuer audience now token identity h =
      by_claims
        (jwt.decode (from_secret secret) ((new_config jwt secret issuer audience).validation) now
          token)
        refl h
    where
      by_claims :
          (o : Option Claims)
          → jwt.decode
              (from_secret secret)
              ((new_config jwt secret issuer audience).validation)
              now
              token
            ≡ o
          → validate_jwt (λ t. o) token ≡ ok identity
          → Genuine secret issuer audience now token identity
      by_claims none e h = cc
      by_claims (some claims) e h =
          subst (Genuine secret issuer audience now token)
            (ok-inj (record { tenant_id = claims.tenant_id; user_id = claims.user_id }) identity h)
            (Genuine-claims secret issuer audience now token claims e)
