-- ===== src/Common.antt =====
-- The names that the components share: the libraries', passed on, and those of the children.
mod Tests
mod Keys
mod Lists
mod Text
mod Int
mod Split
mod Trim
mod Parse
mod Chain
pub mod Map
pub use Tests.*
pub use Chain.*
pub use Keys.*
pub use Lists.*
pub use Text.*
pub use Int.*
unfoldable pub use Split.*
unfoldable pub use Trim.*
unfoldable pub use Parse.*
pub use Prim.Native.Nat.{ℕ, zero, suc, ◌+◌, ◌-◌, ◌*◌, ◌≤◌, ◌<◌}
pub use Prim.Native.String.{String}
pub use mathlib.Core.Path.{◌≡◌, refl, sym, ap, ◌∙◌, subst, fun_ext}
pub use mathlib.Core.Logic.{◌≢◌, ◌↔◌, ◌⊎◌, inl, inr}
pub use mathlib.Core.Bool.{Bool, true, false, not, ◌&&◌, ◌||◌}
pub use mathlib.Core.Option.{Option, none, some, some-injective}
pub use mathlib.Core.List.{List, [], ◌∷◌, ◌++◌, map, append-nil, append_assoc}
pub use native.Mathlib.Omega.{arith}

-- A UUID, by its 128-bit number: the program only compares UUIDs and passes them on.
abbrev pub Uuid : Type 0
Uuid = ℕ
