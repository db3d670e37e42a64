-- ===== src/Common/Text.antt =====
-- The byte order of texts, which is the order of their code points.
use Prim.Native.Nat.{ℕ, compare as compare_ℕ, Ordering}
use Prim.Native.Char.{Char, code}
use Prim.Native.String
use Prim.Native.String.{String, compare, [], ◌∷◌}
use Prim.Native.String.compare
use mathlib.Core.Path.{◌≡◌, refl, ap, ◌∙◌, sym}
use mathlib.Core.Bool.{Bool, true, false}
use native.Mathlib.Omega.{arith}
use text.Mathlib.TextEquality.{path_by_compare}
use text.Mathlib.Text.{is_lt}
use text.Mathlib.TextLemmas.{
  head-eq_of_cons-eq, tail-eq_of_cons-eq, append_assoc, nil-append, cons-append,
}
use mathlib.Core.Logic.{◌≢◌}

infixr 65 ◌<>◌
abbrev pub ◌<>◌ : String → String → String
◌<>◌ = String.◌++◌

-- Rust's `<` on texts.
abbrev pub string_ltb : String → String → Bool
string_ltb s t = is_lt (compare s t)

abbrev opposite : Ordering → Ordering
opposite Ordering.lt = Ordering.gt
opposite Ordering.eq = Ordering.eq
opposite Ordering.gt = Ordering.lt

opposite-compare_ℕ : (m n : ℕ) → compare_ℕ n m ≡ opposite (compare_ℕ m n)
opposite-compare_ℕ m n = ground arith

opposite-compare : (s t : String) → compare t s ≡ opposite (compare s t)
opposite-compare [] [] = refl
opposite-compare [] (d ∷ t) = rw (compare.nil-cons d t, compare.cons-nil d t)
opposite-compare (c ∷ s) [] = rw (compare.nil-cons c s, compare.cons-nil c s)
opposite-compare (c ∷ s) (d ∷ t) = ground (
  arith,
  compare.cons-cons c d s t,
  compare.cons-cons d c t s,
  opposite-compare s t,
  opposite-compare_ℕ (code c) (code d),
)

pub string_ltb-antisym : (s t : String) → string_ltb s t ≡ true → string_ltb t s ≡ false
string_ltb-antisym s t h = ground (arith, opposite-compare s t)

pub string_ltb-connex : (s t : String) → string_ltb s t ≡ false → string_ltb t s ≡ false → s ≡ t
string_ltb-connex s t h k = path_by_compare s t (ground (arith, opposite-compare s t))

-- A text without the character of this code.
abbrev pub Lacks : ℕ → String → Type 0
Lacks k [] = Unit
Lacks k (c ∷ s) = (code c ≢ k) × Lacks k s

-- A text of one character in front of another.
pub one-append : (x : Char) (s : String) → (x ∷ []) <> s ≡ x ∷ s
one-append x s = cons-append x [] s ∙ ap (λ r. x ∷ r) (nil-append s)

-- A separator that the parts before it lack shows where they end.
pub split_unique :
    (x : Char) (a b c d : String)
    → Lacks (code x) a
    → Lacks (code x) c
    → a <> (x ∷ b) ≡ c <> (x ∷ d)
    → (a ≡ c) × (b ≡ d)
split_unique x [] b [] d h k e =
    (refl, tail-eq_of_cons-eq (sym (nil-append (x ∷ b)) ∙ e ∙ nil-append (x ∷ d)))
split_unique x [] b (y ∷ c) d h k e =
    let e' = sym (nil-append (x ∷ b)) ∙ e ∙ cons-append y c (x ∷ d) in
    absurd (k.0 (ap code (sym (head-eq_of_cons-eq e'))))
split_unique x (y ∷ a) b [] d h k e =
    let e' = sym (cons-append y a (x ∷ b)) ∙ e ∙ nil-append (x ∷ d) in
    absurd (h.0 (ap code (head-eq_of_cons-eq e')))
split_unique x (y ∷ a) b (z ∷ c) d h k e =
    let e' = sym (cons-append y a (x ∷ b)) ∙ e ∙ cons-append z c (x ∷ d) in
    let (same, rest) = split_unique x a b c d h.1 k.1 (tail-eq_of_cons-eq e') in
    ((λ i. head-eq_of_cons-eq e' i ∷ same i), rest)

pub append_assoc_text : (a b c : String) → (a <> b) <> c ≡ a <> (b <> c)
append_assoc_text = append_assoc
