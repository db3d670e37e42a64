-- ===== src/Common/Lists.antt =====
-- Lists measured and indexed by native numbers, under the library's names.
use Prim.Native.Nat.{ℕ, zero, suc, ◌+◌, ◌≤◌}
use mathlib.Core.Path.{◌≡◌, refl, ap}
use mathlib.Core.Option.{Option, none, some}
use mathlib.Core.Logic.{◌⊎◌, inl, inr}
use mathlib.Core.List.{List, [], ◌∷◌, ◌++◌}
use native.Mathlib.Omega.{arith}

module _ {ℓ} {A : Type ℓ} where
  abbrev pub length : List A → ℕ
  length [] = 0
  length (x ∷ xs) = suc (length xs)

  abbrev pub get_elem? : List A → ℕ → Option A
  get_elem? [] i = none
  get_elem? (x ∷ xs) zero = some x
  get_elem? (x ∷ xs) (suc i) = get_elem? xs i

  pub length-append : (xs ys : List A) → length (xs ++ ys) ≡ length xs + length ys
  length-append [] ys = omega arith
  length-append (x ∷ xs) ys = omega (arith, length-append xs ys)

  abbrev pub take : ℕ → List A → List A
  take zero xs = []
  take (suc n) [] = []
  take (suc n) (x ∷ xs) = x ∷ take n xs

  pub length-take_of_le : (n : ℕ) (xs : List A) → n ≤ length xs → length (take n xs) ≡ n
  length-take_of_le zero xs h = refl
  length-take_of_le (suc n) [] h = absurd (omega arith)
  length-take_of_le (suc n) (x ∷ xs) h = ap suc (length-take_of_le n xs (omega arith))

abbrev pub Every : {A : Type 0} → (A → Type 0) → List A → Type 0
Every P [] = Unit
Every P (x ∷ xs) = P x × Every P xs

pub Every-append :
    {A : Type 0} (P : A → Type 0) (xs ys : List A) → Every P xs → Every P ys → Every P (xs ++ ys)
Every-append P [] ys h k = k
Every-append P (x ∷ xs) ys h k = (h.0, Every-append P xs ys h.1 k)

abbrev pub Any : {A : Type 0} → (A → Type 0) → List A → Type 0
Any P [] = ⊥
Any P (x ∷ xs) = P x ⊎ Any P xs

-- One item of a list changed, or dropped.
pub Every-middle :
    {A : Type 0} (P : A → Type 0) (xs : List A) (x : A) (ys : List A) → Every P (xs ++ x ∷ ys) → P x
Every-middle P [] x ys h = h.0
Every-middle P (z ∷ xs) x ys h = Every-middle P xs x ys h.1

pub Every-change :
    {A : Type 0} (P : A → Type 0) (xs : List A) (x x' : A) (ys : List A)
    → Every P (xs ++ x ∷ ys)
    → P x'
    → Every P (xs ++ x' ∷ ys)
Every-change P [] x x' ys h k = (k, h.1)
Every-change P (z ∷ xs) x x' ys h k = (h.0, Every-change P xs x x' ys h.1 k)

pub Every-drop :
    {A : Type 0} (P : A → Type 0) (xs : List A) (x : A) (ys : List A)
    → Every P (xs ++ x ∷ ys)
    → Every P (xs ++ ys)
Every-drop P [] x ys h = h.1
Every-drop P (z ∷ xs) x ys h = (h.0, Every-drop P xs x ys h.1)

pub Any-change :
    {A : Type 0} (P : A → Type 0) (xs : List A) (x x' : A) (ys : List A)
    → (P x → P x')
    → Any P (xs ++ x ∷ ys)
    → Any P (xs ++ x' ∷ ys)
Any-change P [] x x' ys f (inl h) = inl (f h)
Any-change P [] x x' ys f (inr h) = inr h
Any-change P (z ∷ xs) x x' ys f (inl h) = inl h
Any-change P (z ∷ xs) x x' ys f (inr h) = inr (Any-change P xs x x' ys f h)

pub Any-drop :
    {A : Type 0} (P : A → Type 0) (xs : List A) (x : A) (ys : List A)
    → (P x → ⊥)
    → Any P (xs ++ x ∷ ys)
    → Any P (xs ++ ys)
Any-drop P [] x ys f (inl h) = absurd (f h)
Any-drop P [] x ys f (inr h) = h
Any-drop P (z ∷ xs) x ys f (inl h) = inl h
Any-drop P (z ∷ xs) x ys f (inr h) = inr (Any-drop P xs x ys f h)

pub Any-middle :
    {A : Type 0} (P : A → Type 0) (xs : List A) (x : A) (ys : List A) → P x → Any P (xs ++ x ∷ ys)
Any-middle P [] x ys h = inl h
Any-middle P (z ∷ xs) x ys h = inr (Any-middle P xs x ys h)

pub Any-both :
    {A : Type 0} (P Q : A → Type 0) (xs : List A) → Every P xs → Any Q xs → Any (λ x. Q x × P x) xs
Any-both P Q [] h k = k
Any-both P Q (x ∷ xs) h (inl q) = inl (q, h.0)
Any-both P Q (x ∷ xs) h (inr k) = inr (Any-both P Q xs h.1 k)

pub Every-map :
    {A : Type 0} {P Q : A → Type 0}
    → ((x : A) → P x → Q x)
    → (xs : List A) → Every P xs
    → Every Q xs
Every-map f [] h = tt
Every-map f (x ∷ xs) h = (f x h.0, Every-map f xs h.1)

pub Any-map :
    {A : Type 0} {P Q : A → Type 0} → ((x : A) → P x → Q x) → (xs : List A) → Any P xs → Any Q xs
Any-map f [] h = h
Any-map f (x ∷ xs) (inl h) = inl (f x h)
Any-map f (x ∷ xs) (inr h) = inr (Any-map f xs h)

pub Every-suffix : {A : Type 0} (P : A → Type 0) (xs ys : List A) → Every P (xs ++ ys) → Every P ys
Every-suffix P [] ys h = h
Every-suffix P (x ∷ xs) ys h = Every-suffix P xs ys h.1
