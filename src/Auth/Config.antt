-- ===== src/Auth/Config.antt =====
-- src/auth/jwt.rs and src/auth/mod.rs: the settings of the validation, and `Auth`.
--
-- `Jwt` is jsonwebtoken. Of its `Validation` the fields are listed that this code sets, and the leeway,
-- which it leaves as it is; its hash sets are lists. `decode` reads the clock, `now`.
use yappa_core.Common.{ℕ, String, Bool, true, Option, some, List, [], ◌∷◌}
use yappa_core.Auth.{Claims, Authentication, validate_jwt}

pub record Validation (Algorithm : Type 0) : Type 0 where
  pub algorithms : List Algorithm
  pub required_spec_claims : List String
  pub iss : Option (List String)
  pub aud : Option (List String)
  pub validate_exp : Bool
  pub leeway : ℕ

pub record Jwt : Type 1 where
  pub Algorithm : Type 0
  pub hs256 : Algorithm
  pub DecodingKey : Type 0
  pub from_secret : String → DecodingKey
  pub new_validation : Algorithm → Validation Algorithm
  pub decode : DecodingKey → Validation Algorithm → ℕ → String → Option Claims

module _ (jwt : Jwt) where
  open jwt use {Algorithm, hs256, DecodingKey, from_secret, new_validation, decode}

  pub record AuthConfig : Type 0 where
    pub decoding_key : DecodingKey
    pub validation : Validation Algorithm

  unfoldable pub new_config : String → String → String → AuthConfig
  new_config secret issuer audience =
      let validation = new_validation hs256 in
      record {
        decoding_key = from_secret secret;
        validation = record validation {
          algorithms = hs256 ∷ [];
          required_spec_claims = "aud" ∷ "iss" ∷ "exp" ∷ validation.required_spec_claims;
          iss = some (issuer ∷ []);
          aud = some (audience ∷ []);
          validate_exp = true;
        };
      }

  pub record Auth : Type 0 where
    pub config : AuthConfig

  unfoldable pub new : String → String → String → Auth
  new secret issuer audience = record { config = new_config secret issuer audience }

  unfoldable pub authenticate : Auth → ℕ → String → Authentication
  authenticate auth now token =
      validate_jwt (decode ((auth.config).decoding_key) ((auth.config).validation) now) token
