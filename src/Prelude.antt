-- ===== src/Prelude.antt =====
-- The names that the modules of the development share: the libraries', passed on, Boolean tests,
-- equality as an interface, signed integers, lists and association lists (Go's maps).
mod Tests
mod Int
mod Equality
mod Lists
mod Assoc
pub mod Dominance
pub mod Counting
pub use Tests.*
pub use Int.*
pub use Equality.*
pub use Lists.*
unfoldable pub use Assoc.*
pub use Prim.Native.Nat.{ℕ, zero, suc, ◌+◌, ◌-◌, ◌*◌, ◌/◌, ◌%◌, ◌^◌, ◌≤◌, ◌<◌, min, max}
pub use Prim.Native.String.{String}
pub use mathlib.Core.Path.{◌≡◌, refl, sym, ap, ◌∙◌}
pub use mathlib.Core.Logic.{◌≢◌, ◌↔◌, ◌⊎◌, inl, inr}
pub use mathlib.Core.Bool.{Bool, true, false, ◌&&◌, ◌||◌, not}
pub use mathlib.Core.List.{Memᴰ}
pub use mathlib.Core.Option.{Option, none, some}
pub use mathlib.Core.List.{List, [], ◌∷◌, ◌++◌, map}
pub use native.Mathlib.Omega.{arith}
