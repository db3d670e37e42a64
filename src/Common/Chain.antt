-- ===== src/Common/Chain.antt =====
-- Chains of options, and what they have gone through when they end in a result.
use mathlib.Core.Path.{◌≡◌, refl}
use mathlib.Core.Logic.{◌⊎◌, inl, inr}
use mathlib.Core.Option.{Option, none, some}
use native.Mathlib.Omega.{arith}

infixl 5 ◌>>=◌
-- `?` on an option, or an `expect`.
abbrev pub ◌>>=◌ {ℓ κ} : {A : Type ℓ} {B : Type κ} → Option A → (A → Option B) → Option B
none >>= f = none
some a >>= f = f a

module _ {A B C D E F : Type 0} (f : A → B → C → D → E → F) where
  abbrev pub chain5 : Option A → Option B → Option C → Option D → Option E → Option F
  chain5 a b c d e = do x ← a; y ← b; z ← c; u ← d; v ← e; some (f x y z u v)

  pub none-of-chain5 :
      (a : Option A) (b : Option B) (c : Option C) (d : Option D) (e : Option E)
      → chain5 a b c d e ≡ none
      → (a ≡ none) ⊎ (b ≡ none) ⊎ (c ≡ none) ⊎ (d ≡ none) ⊎ (e ≡ none)
  none-of-chain5 none b c d e h = inl refl
  none-of-chain5 (some x) none c d e h = inr (inl refl)
  none-of-chain5 (some x) (some y) none d e h = inr (inr (inl refl))
  none-of-chain5 (some x) (some y) (some z) none e h = inr (inr (inr (inl refl)))
  none-of-chain5 (some x) (some y) (some z) (some u) none h = inr (inr (inr (inr refl)))
  none-of-chain5 (some x) (some y) (some z) (some u) (some v) h = cc

  pub chain5-none :
      (a : Option A) (b : Option B) (c : Option C) (d : Option D) (e : Option E)
      → (a ≡ none) ⊎ (b ≡ none) ⊎ (c ≡ none) ⊎ (d ≡ none) ⊎ (e ≡ none)
      → chain5 a b c d e ≡ none
  chain5-none none b c d e h = refl
  chain5-none (some x) none c d e h = refl
  chain5-none (some x) (some y) none d e h = refl
  chain5-none (some x) (some y) (some z) none e h = refl
  chain5-none (some x) (some y) (some z) (some u) none h = refl
  chain5-none (some x) (some y) (some z) (some u) (some v) h = ground arith

  pub chain5-some :
      (a : Option A) (b : Option B) (c : Option C) (d : Option D) (e : Option E) (r : F)
      → chain5 a b c d e ≡ some r
      → (x : A) × (y : B) × (z : C) × (u : D) × (v : E) × (a ≡ some x)
        × (b ≡ some y)
        × (c ≡ some z)
        × (d ≡ some u)
        × (e ≡ some v)
        × (f x y z u v ≡ r)
  chain5-some none b c d e r h = cc
  chain5-some (some x) none c d e r h = cc
  chain5-some (some x) (some y) none d e r h = cc
  chain5-some (some x) (some y) (some z) none e r h = cc
  chain5-some (some x) (some y) (some z) (some u) none r h = cc
  chain5-some (some x) (some y) (some z) (some u) (some v) r h =
      (x, y, z, u, v, refl, refl, refl, refl, refl, cc)
