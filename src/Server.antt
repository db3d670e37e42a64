-- ===== src/Server.antt =====
-- src/server: the HTTP endpoints beside the WebSocket, src/server/health.rs, history.rs and groups.rs.
--
-- Postgres is a parameter: a query is its text and what is bound to it, and `fetch_all` gives the rows,
-- `none` for an error. A number of 32 or 64 bits with a sign is an integer. None of the endpoints
-- asks for a token.
pub mod History
pub mod Bounds
pub mod Stored
pub mod Groups
mod Tests
use yappa_core.Common.{ℕ, ℤ, pos, negsuc, ◌-◌, List, u64_max}

pub data StatusCode : Type 0 where
  ok : StatusCode
  internal_server_error : StatusCode

pub record Answer (A : Type 0) : Type 0 where
  pub status : StatusCode
  pub body : List A

-- `x as u64` for an `x : i64`.
abbrev pub as_u64 : ℤ → ℕ
as_u64 (pos n) = n
as_u64 (negsuc n) = u64_max - n

abbrev pub health : StatusCode
health = ok
