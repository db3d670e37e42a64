-- ===== src/Protocol/Tests.antt =====
-- The conversation of two users, at small inputs.
use yappa_core.Common.{ℕ, ◌≡◌, ◌≢◌, none, List, [], ◌∷◌, length, arith}
use yappa_core.Sample.{toy_uuid}

toy_uuid-parses : (bytes : List ℕ) → length bytes ≡ 16 → toy_uuid bytes ≢ none
toy_uuid-parses [] h e = omega (arith, h)
toy_uuid-parses (n ∷ bytes) h e = ground arith
