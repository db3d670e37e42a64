-- ===== src/Common/Parse.antt =====
-- Rust's `parse` for unsigned integers.
use Prim.Native.Nat.{ℕ, ◌+◌, ◌-◌, ◌*◌, ◌<◌}
use Prim.Native.Char.{code}
use Prim.Native.String.{String}
use mathlib.Core.Path.{◌≡◌}
use mathlib.Core.Bool.{Bool, ◌&&◌}
use mathlib.Core.Option.{Option, none, some}
use native.Mathlib.Omega.{arith}
use yappa_core.Common.Tests.{nat_beq, ltb, leb, if◌then◌else◌}

abbrev is_digit : ℕ → Bool
is_digit c = leb 48 c && leb c 57

-- The digits that follow a number, as long as the result stays below a bound.
abbrev pub digits_from : ℕ → ℕ → String → Option ℕ
digits_from bound n String.[] = some n
digits_from bound n (String.◌∷◌ c s) =
    let next = n * 10 + (code c - 48) in
    let rest = digits_from bound next s in
    if is_digit (code c) && ltb next bound then rest else none

abbrev digits : ℕ → String → Option ℕ
digits bound String.[] = none
digits bound (String.◌∷◌ c s) = digits_from bound 0 (String.◌∷◌ c s)

-- A number may have a plus sign; `none` for a text that is no number, or one that is not below the bound.
unfoldable pub parse_unsigned : ℕ → String → Option ℕ
parse_unsigned bound String.[] = none
parse_unsigned bound (String.◌∷◌ c s) =
    if nat_beq (code c) 43 then digits bound s else digits bound (String.◌∷◌ c s)

digits_from-bound :
    (bound n : ℕ) (s : String) (m : ℕ) → n < bound → digits_from bound n s ≡ some m → m < bound
digits_from-bound bound n String.[] m h e = ground arith
digits_from-bound bound n (String.◌∷◌ c s) m h e =
    ground (arith, digits_from-bound bound (n * 10 + (code c - 48)) s m)

digits-bound : (bound : ℕ) (s : String) (m : ℕ) → 0 < bound → digits bound s ≡ some m → m < bound
digits-bound bound String.[] m h e = cc
digits-bound bound (String.◌∷◌ c s) m h e = digits_from-bound bound 0 (String.◌∷◌ c s) m h e

pub parse_unsigned-bound :
    (bound : ℕ) (s : String) (m : ℕ) → 0 < bound → parse_unsigned bound s ≡ some m → m < bound
unfolding parse_unsigned
parse_unsigned-bound bound String.[] m h e = cc
parse_unsigned-bound bound (String.◌∷◌ c s) m h e =
    ground (arith, digits-bound bound s m h, digits-bound bound (String.◌∷◌ c s) m h)
