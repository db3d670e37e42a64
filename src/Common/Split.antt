-- ===== src/Common/Split.antt =====
-- Texts cut at a character, as Rust's `split`, `split_once` and `strip_prefix` cut them.
use Prim.Native.Nat.{ℕ}
use Prim.Native.Char.{Char, code}
use Prim.Native.String.{String}
use mathlib.Core.Path.{◌≡◌, refl}
use mathlib.Core.Option.{Option, none, some}
use mathlib.Core.List.{List, [], ◌∷◌}
use native.Mathlib.Omega.{arith}
use text.Mathlib.TextLemmas.{nil-append, cons-append}
use yappa_core.Common.Tests.{nat_beq, if◌then◌else◌}
use yappa_core.Common.Text.{◌<>◌, Lacks}

abbrev lead : Char → Option (String × String) → Option (String × String)
lead c none = none
lead c (some (a, b)) = some (String.◌∷◌ c a, b)

abbrev lead_first : Char → List String → List String
lead_first c [] = String.◌∷◌ c "" ∷ []
lead_first c (p ∷ parts) = String.◌∷◌ c p ∷ parts

-- What stands before and after the first such character.
unfoldable pub split_once : Char → String → Option (String × String)
split_once x String.[] = none
split_once x (String.◌∷◌ c s) =
    let rest = split_once x s in if nat_beq (code c) (code x) then some ("", s) else lead c rest

unfoldable pub split : Char → String → List String
split x String.[] = "" ∷ []
split x (String.◌∷◌ c s) =
    let rest = split x s in if nat_beq (code c) (code x) then "" ∷ rest else lead_first c rest

unfoldable pub strip_prefix : String → String → Option String
strip_prefix String.[] s = some s
strip_prefix (String.◌∷◌ p prefix) String.[] = none
strip_prefix (String.◌∷◌ p prefix) (String.◌∷◌ c s) =
    let rest = strip_prefix prefix s in if nat_beq (code p) (code c) then rest else none

pub split_once-append :
    (x : Char) (a b : String) → Lacks (code x) a → split_once x (a <> String.◌∷◌ x b) ≡ some (a, b)
unfolding split_once
split_once-append x String.[] b h = rw (nil-append (String.◌∷◌ x b)) (ground arith)
split_once-append x (String.◌∷◌ c a) b h =
    rw (cons-append c a (String.◌∷◌ x b), split_once)
      (ground (arith, h.0, split_once-append x a b h.1))

pub split-append :
    (x : Char) (a b : String) → Lacks (code x) a → split x (a <> String.◌∷◌ x b) ≡ a ∷ split x b
unfolding split
split-append x String.[] b h = rw (nil-append (String.◌∷◌ x b)) (ground arith)
split-append x (String.◌∷◌ c a) b h =
    rw (cons-append c a (String.◌∷◌ x b), split) (ground (arith, h.0, split-append x a b h.1))

pub split-whole : (x : Char) (a : String) → Lacks (code x) a → split x a ≡ a ∷ []
unfolding split
split-whole x String.[] h = refl
split-whole x (String.◌∷◌ c a) h = ground (arith, h.0, split-whole x a h.1)

pub strip_prefix-append : (p s : String) → strip_prefix p (p <> s) ≡ some s
unfolding strip_prefix
strip_prefix-append String.[] s = rw (nil-append s) refl
strip_prefix-append (String.◌∷◌ c p) s =
    rw (cons-append c p s, strip_prefix) (ground (arith, strip_prefix-append p s))

pub Lacks-append : (k : ℕ) (a b : String) → Lacks k a → Lacks k b → Lacks k (a <> b)
Lacks-append k String.[] b h h' = rw (nil-append b) h'
Lacks-append k (String.◌∷◌ c a) b h h' = rw (cons-append c a b) (h.0, Lacks-append k a b h.1 h')
