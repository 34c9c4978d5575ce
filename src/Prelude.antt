-- ===== src/Prelude.antt =====
-- Names that every module shares: the libraries' and those of the children, which hold the
-- Boolean tests, the equality interface, tables of rows, and Python's exceptions as values.
mod Tests
mod Lists
mod Classes
mod Rows
mod Dicts
mod Sort
mod Empty
mod Distinct
mod Counts
mod Errors
mod Int
pub mod Actions
pub use Tests.*
pub use Lists.*
pub use Classes.*
pub use Rows.*
unfoldable pub use Dicts.*
unfoldable pub use Sort.*
pub use Counts.*
pub use Empty.*
pub use Distinct.*
pub use Errors.*
pub use Int.*
pub use Prim.Native.Nat.{ℕ, zero, suc, ◌+◌, ◌-◌, ◌*◌, ◌/◌, ◌%◌, ◌≤◌, ◌<◌, min, max}
pub use Prim.Native.String.{String}
pub use mathlib.Core.Path.{◌≡◌, refl, sym, ap, ◌∙◌, subst}
pub use mathlib.Core.Logic.{◌≢◌, ◌↔◌, ◌⊎◌, inl, inr}
pub use mathlib.Core.Bool.{Bool, true, false, not, ◌&&◌, ◌||◌}
pub use mathlib.Core.Option.{Option, none, some}
pub use mathlib.Core.List.{List, [], ◌∷◌, ◌++◌, map}
pub use native.Mathlib.Omega.{arith}
pub use text.Mathlib.TextEquality.{eq_iff}
