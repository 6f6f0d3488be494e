-- ===== src/Base.antt =====
-- The names that every component shares: the libraries', passed on, Boolean tests, the outcome
-- monad for code that asserts, maps from indices, counted loops and signed offsets.
mod Tests
mod Maps
mod Outcomes
mod Ints
mod Words
mod Loops
mod Totals
pub mod Members
pub use Tests.*
unfoldable pub use Maps.*
unfoldable pub use Outcomes.*
pub use Ints.*
pub use Words.*
unfoldable pub use Loops.*
unfoldable pub use Totals.*
pub use Prim.Native.Nat.{ℕ, zero, suc, ◌+◌, ◌-◌, ◌*◌, ◌/◌, ◌%◌, ◌^◌, ◌≤◌, ◌<◌}
pub use mathlib.Core.Path.{◌≡◌, refl, sym, ap, ◌∙◌}
pub use mathlib.Core.Logic.{◌≢◌, ◌↔◌, ◌⊎◌, inl, inr}
pub use mathlib.Core.Bool.{Bool, true, false, not, ◌&&◌, ◌||◌}
pub use mathlib.Core.Option.{Option, none, some}
pub use mathlib.Core.List.{List, [], ◌∷◌, ◌++◌}
pub use native.Mathlib.Omega.{arith}
