-- ===== src/Auth.antt =====
-- src/auth: the claims of a token and the identity that they give.
--
-- `decode` is jsonwebtoken's, with the key and the validation that `AuthConfig::new` makes of the secret, the
-- issuer and the audience; `none` stands for any of its errors.
pub mod Config
pub mod Genuine
mod Tests
use yappa_core.Common.{ℕ, String, Option, none, some}

pub record Identity : Type 0 where
  pub tenant_id : String
  pub user_id : String

pub record Claims : Type 0 where
  pub tenant_id : String
  pub user_id : String
  pub exp : ℕ
  pub iss : Option String
  pub aud : Option String

pub data AuthError : Type 0 where
  invalid_token : AuthError

pub data Authentication : Type 0 where
  ok : Identity → Authentication
  err : AuthError → Authentication

unfoldable pub validate_jwt : (String → Option Claims) → String → Authentication
validate_jwt decode token = elim (decode token) [
  | none ↦ err invalid_token
  | some claims ↦ ok (record { tenant_id = claims.tenant_id; user_id = claims.user_id })
]
