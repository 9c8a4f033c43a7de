-- ===== src/Prelude.antt =====
-- The names that every other module shares: the libraries', passed on, and those of the children
-- (Boolean tests, lists over the native numbers, Go's `int`, `string` and `map`, `sort`, paths).
mod Tests
mod Lists
mod Int
mod Strings
mod Utf8
mod Dicts
mod Sorting
mod Paths
pub use Tests.*
pub use Lists.*
pub use Int.*
unfoldable pub use Strings.*
unfoldable pub use Utf8.*
unfoldable pub use Dicts.*
unfoldable pub use Sorting.*
unfoldable pub use Paths.*
pub use Prim.Native.Nat.{ℕ, zero, suc, ◌+◌, ◌-◌, ◌*◌, ◌/◌, ◌%◌, ◌^◌, ◌≤◌, ◌<◌, min}
pub use Prim.Native.String.{String}
pub use mathlib.Core.Path.{◌≡◌, refl, sym, ap, subst, ◌∙◌, ◌≡⟨◌⟩◌, ◌∎}
pub use mathlib.Core.Logic.{◌≢◌, ◌↔◌, ◌⊎◌, inl, inr}
pub use mathlib.Core.Bool.{Bool, true, false, not, ◌&&◌, ◌||◌}
pub use mathlib.Core.Option.{Option, none, some}
pub use mathlib.Core.List.{List, [], ◌∷◌, ◌++◌, map, reverse, append-nil, append_assoc}
pub use native.Mathlib.Omega.{arith}
