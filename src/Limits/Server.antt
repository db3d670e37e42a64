-- ===== src/Limits/Server.antt =====
-- The commands of a Redis server that the limiter's scripts call, with what their documentation says
-- of the value at each key: nothing, an integer or a set. A set is a list in no particular order.
use yappa_core.Common.{
  ℕ, zero, suc, ◌≡◌, ◌≢◌, String, Option, none, some, List, [], ◌∷◌, ◌==◌, string_eq, if◌then◌else◌,
  length, contains, ℤ, pos, negsuc, i64_max,
}

abbrev pub succ : ℤ → ℤ
succ (pos n) = pos (suc n)
succ (negsuc zero) = pos 0
succ (negsuc (suc n)) = negsuc n

abbrev pub pred : ℤ → ℤ
pred (pos zero) = negsuc 0
pred (pos (suc n)) = pos n
pred (negsuc n) = negsuc (suc n)

pub data Value : Type 0 where
  absent : Value
  number : ℤ → Value
  set : List String → Value

-- A key that is absent counts as 0, and as the empty set; a key of the other kind is an error.
abbrev pub as_number : Value → Option ℤ
as_number absent = some (pos 0)
as_number (number z) = some z
as_number (set xs) = none

abbrev pub as_set : Value → Option (List String)
as_set absent = some []
as_set (number z) = none
as_set (set xs) = some xs

abbrev pub add : String → List String → List String
add x xs = if contains x xs then xs else x ∷ xs

abbrev pub drop_all : String → List String → List String
drop_all x [] = []
drop_all x (y ∷ xs) = if y == x then drop_all x xs else y ∷ drop_all x xs

-- A set that loses its last member is gone.
abbrev pub of_list : List String → Value
of_list [] = absent
of_list (x ∷ xs) = set (x ∷ xs)

pub record Redis : Type 1 where
  pub Store : Type 0
  pub value : Store → String → Value
  pub incr : Store → String → ℤ × Store
  pub decr : Store → String → ℤ × Store
  pub scard : Store → String → ℕ
  pub sadd : Store → String → String → Store
  pub srem : Store → String → String → Store
  pub del : Store → String → Store
  pub incr_lem :
      (s : Store) (k : String) (z : ℤ)
      → as_number (value s k) ≡ some z
      → z ≢ pos i64_max
      → ((incr s k).0 ≡ succ z)
        × ((j : String) → value (incr s k).1 j ≡ (if k == j then number (succ z) else value s j))
  pub decr_lem :
      (s : Store) (k : String) (z : ℤ)
      → as_number (value s k) ≡ some z
      → z ≢ negsuc i64_max
      → ((decr s k).0 ≡ pred z)
        × ((j : String) → value (decr s k).1 j ≡ (if k == j then number (pred z) else value s j))
  pub scard_lem :
      (s : Store) (k : String) (xs : List String)
      → as_set (value s k) ≡ some xs
      → scard s k ≡ length xs
  pub sadd_lem :
      (s : Store) (k x : String) (xs : List String)
      → as_set (value s k) ≡ some xs
      → (j : String) → value (sadd s k x) j ≡ (if k == j then set (add x xs) else value s j)
  pub srem_lem :
      (s : Store) (k x : String) (xs : List String)
      → as_set (value s k) ≡ some xs
      → (j : String)
      → value (srem s k x) j ≡ (if k == j then of_list (drop_all x xs) else value s j)
  pub del_lem :
      (s : Store) (k j : String) → value (del s k) j ≡ (if k == j then absent else value s j)
