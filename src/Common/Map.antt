-- ===== src/Common/Map.antt =====
-- The maps of the program (`DashMap`, `HashMap`) as association lists: `get` finds the first entry
-- of a key, `insert` replaces it where it stands, `remove` drops every entry of the key.
use mathlib.Core.Path.{◌≡◌, refl}
use mathlib.Core.Bool.{Bool, true, false}
use mathlib.Core.Option.{Option, none, some}
use mathlib.Core.List.{List, [], ◌∷◌}
use native.Mathlib.Omega.{arith}
use yappa_core.Common.Tests.{if◌then◌else◌}
use yappa_core.Common.Keys.{Key, ◌==◌}

abbrev pub Map {ℓ κ} : Type ℓ → Type κ → Type (ℓ ⊔ κ)
Map K V = List (K × V)

-- What `or_default` gives for a missing entry.
abbrev pub or_empty {ℓ κ} : {K : Type ℓ} {V : Type κ} → Option (Map K V) → Map K V
or_empty none = []
or_empty (some m) = m

module _ {ℓ κ} {K : Type ℓ} {V : Type κ} where
  unfoldable pub is_empty : Map K V → Bool
  is_empty [] = true
  is_empty (_ ∷ _) = false

module _ {ℓ κ} {K : Type ℓ} {V : Type κ} ⦃e : Key K⦄ where
  unfoldable pub get : K → Map K V → Option V
  get k [] = none
  get k ((j, v) ∷ m) = if j == k then some v else get k m

  unfoldable pub insert : K → V → Map K V → Map K V
  insert k v [] = (k, v) ∷ []
  insert k v ((j, w) ∷ m) = if j == k then (k, v) ∷ m else (j, w) ∷ insert k v m

  unfoldable pub remove : K → Map K V → Map K V
  remove k [] = []
  remove k ((j, w) ∷ m) = if j == k then remove k m else (j, w) ∷ remove k m

  pub get-nil : (k : K) → get k [] ≡ none
  unfolding get
  get-nil k = refl

  pub get-insert :
      (k j : K) (v : V) (m : Map K V) → get j (insert k v m) ≡ (if k == j then some v else get j m)
  unfolding get insert
  get-insert k j v [] = refl
  get-insert k j v ((i, w) ∷ m) =
      ground (arith, e.same_iff k j, e.same_iff i k, e.same_iff i j, get-insert k j v m)

  pub get-remove : (k j : K) (m : Map K V) → get j (remove k m) ≡ (if k == j then none else get j m)
  unfolding get remove
  get-remove k j [] = ground arith
  get-remove k j ((i, w) ∷ m) =
      ground (arith, e.same_iff k j, e.same_iff i k, e.same_iff i j, get-remove k j m)

  pub get_of_is_empty : (k : K) (m : Map K V) → is_empty m ≡ true → get k m ≡ none
  unfolding is_empty get
  get_of_is_empty k [] h = refl
  get_of_is_empty k (x ∷ m) h = cc

  pub is_empty-insert : (k : K) (v : V) (m : Map K V) → is_empty (insert k v m) ≡ false
  unfolding is_empty insert
  is_empty-insert k v [] = refl
  is_empty-insert k v (x ∷ m) = ground arith

  -- Keys occur once.
  abbrev pub Distinct : Map K V → Type κ
  Distinct [] = Unit
  Distinct ((k, v) ∷ m) = (get k m ≡ none) × Distinct m

  pub Distinct-insert : (k : K) (v : V) (m : Map K V) → Distinct m → Distinct (insert k v m)
  unfolding insert
  Distinct-insert k v [] d = (get-nil k, tt)
  Distinct-insert k v ((j, w) ∷ m) d =
      ground (arith, e.same_iff j k, e.same_iff k j, get-insert k j v m, Distinct-insert k v m d.1)

  pub Distinct-remove : (k : K) (m : Map K V) → Distinct m → Distinct (remove k m)
  unfolding remove
  Distinct-remove k [] d = tt
  Distinct-remove k ((j, w) ∷ m) d = ground (arith, get-remove k j m, Distinct-remove k m d.1)
