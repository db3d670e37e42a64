-- ===== src/Common/Keys.antt =====
-- Equality of keys as an interface: the program's maps are keyed by texts and by UUIDs.
use Prim.Native.Nat.{ℕ}
use Prim.Native.String.{String}
use mathlib.Core.Path.{◌≡◌, refl, ap}
use mathlib.Core.Logic.{◌↔◌, ◌≢◌, ◌⊎◌, inl, inr}
use mathlib.Core.Bool.{Bool, true, false, ◌||◌}
use mathlib.Core.List.{List, [], ◌∷◌}
use native.Mathlib.Omega.{arith}
use text.Mathlib.Text.{◌==◌ as str_eq}
use text.Mathlib.TextEquality.{eq_iff}
use yappa_core.Common.Tests.{nat_beq, nat_beq_iff, Bool-cases}

pub record Key {ℓ} (K : Type ℓ) : Type ℓ where
  pub same : K → K → Bool
  pub same_iff : (j k : K) → (same j k ≡ true) ↔ (j ≡ k)

instance abbrev pub string_eq : Key String
string_eq = record { same_iff = eq_iff; same = str_eq }

instance abbrev pub nat_eq : Key ℕ
nat_eq = record { same_iff = nat_beq_iff; same = nat_beq }

abbrev pub ◌==◌ {ℓ} : {K : Type ℓ} ⦃key : Key K⦄ → K → K → Bool
◌==◌ ⦃key⦄ = key.same

infix 50 ◌==◌
module _ {ℓ} {A : Type ℓ} ⦃e : Key A⦄ where
  pub ==-refl : (a : A) → (a == a) ≡ true
  ==-refl a = (e.same_iff a a).1 refl

  pub eq_of_== : (a b : A) → (a == b) ≡ true → a ≡ b
  eq_of_== a b = (e.same_iff a b).0

  pub ==-false : (a b : A) → a ≢ b → (a == b) ≡ false
  ==-false a b h = elim (Bool-cases (a == b)) [
    | inl same ↦ absurd (h (eq_of_== a b same))
    | inr other ↦ other
  ]

  pub ne_of_== : (a b : A) → (a == b) ≡ false → a ≢ b
  ne_of_== a b e p = ground (arith, ==-refl a, ap (λ x. a == x) p)

  -- To split on whether two keys are one.
  pub ==-cases : (a b : A) → ((a == b) ≡ true) × (a ≡ b) ⊎ ((a == b) ≡ false) × (a ≢ b)
  ==-cases a b = elim (Bool-cases (a == b)) [
    | inl same ↦ inl (same, eq_of_== a b same)
    | inr other ↦ inr (other, λ p. ground (arith, (e.same_iff a b).1 p))
  ]

  abbrev pub contains : A → List A → Bool
  contains a [] = false
  contains a (b ∷ bs) = b == a || contains a bs
