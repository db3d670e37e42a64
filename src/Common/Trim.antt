-- ===== src/Common/Trim.antt =====
-- Rust's `str::trim`, and parts joined by a separator.
use Prim.Native.Nat.{ℕ}
use Prim.Native.Char.{Char, code}
use Prim.Native.String.{String}
use mathlib.Core.Path.{◌≡◌, ap, ◌∙◌}
use mathlib.Core.Bool.{Bool, true, false, ◌||◌, ◌&&◌}
use mathlib.Core.List.{List, [], ◌∷◌}
use yappa_core.Common.Tests.{nat_beq, leb, if◌then◌else◌}
use yappa_core.Common.Text.{◌<>◌, Lacks}
use yappa_core.Common.Lists.{Every}
use yappa_core.Common.Split.{split, split-append, split-whole}

-- Unicode's White_Space.
abbrev pub is_whitespace : ℕ → Bool
is_whitespace c =
    (leb 9 c && leb c 13)
    || (nat_beq c 32
        || (nat_beq c 133
            || (nat_beq c 160
                || (nat_beq c 5760
                    || ((leb 8192 c && leb c 8202)
                        || (nat_beq c 8232
                            || (nat_beq c 8233
                                || (nat_beq c 8239 || (nat_beq c 8287 || nat_beq c 12288)))))))))

abbrev pub trim_start : String → String
trim_start String.[] = ""
trim_start (String.◌∷◌ c s) =
    let rest = trim_start s in if is_whitespace (code c) then rest else String.◌∷◌ c s

abbrev is_blank : String → Bool
is_blank String.[] = true
is_blank (String.◌∷◌ c s) = false

abbrev keep_end : Char → String → String
keep_end c rest = if is_blank rest && is_whitespace (code c) then "" else String.◌∷◌ c rest

abbrev pub trim_end : String → String
trim_end String.[] = ""
trim_end (String.◌∷◌ c s) = keep_end c (trim_end s)

unfoldable pub trim : String → String
trim s = trim_end (trim_start s)

-- The parts, with this character between them.
unfoldable pub join : Char → List String → String
join x [] = ""
join x (p ∷ []) = p
join x (p ∷ q ∷ ps) = p <> String.◌∷◌ x (join x (q ∷ ps))

pub split-join :
    (x : Char) (p : String) (ps : List String)
    → Every (Lacks (code x)) (p ∷ ps)
    → split x (join x (p ∷ ps)) ≡ p ∷ ps
unfolding join
split-join x p [] h = split-whole x p h.0
split-join x p (q ∷ ps) h =
    split-append x p (join x (q ∷ ps)) h.0 ∙ ap (λ l. p ∷ l) (split-join x q ps h.1)
