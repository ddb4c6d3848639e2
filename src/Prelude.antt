-- ===== src/Prelude.antt =====
-- The names that every module of this library shares: the libraries' own, passed on, and those of
-- the children: Boolean tests, results, equality of keys, sets and maps.
mod Tests
mod Lists
mod Outcome
mod Keys
pub mod Action
pub mod Checks
pub mod HashSet
pub mod HashMap
pub use Tests.*
pub use Lists.*
pub use Outcome.*
pub use Keys.*
pub use Prim.Native.Nat.{ℕ, zero, suc, ◌+◌, ◌-◌, ◌*◌, ◌/◌, ◌%◌, ◌^◌, ◌≤◌, ◌<◌}
pub use mathlib.Core.Path.{◌≡◌, refl, sym, ap, ◌∙◌, subst}
pub use mathlib.Core.Logic.{◌≢◌, ◌↔◌, ◌⊎◌, inl, inr}
pub use mathlib.Core.Bool.{Bool, true, false, not, ◌&&◌, ◌||◌}
pub use mathlib.Core.Option.{Option, none, some}
pub use mathlib.Core.List.{List, [], ◌∷◌, ◌++◌, map, reverse}
pub use native.Mathlib.Omega.{arith}
