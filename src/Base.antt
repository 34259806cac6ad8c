-- ===== src/Base.antt =====
-- The names that every module shares: the libraries', passed on, Boolean tests and the
-- conditional, and the children's lists, equality instances, maps and results.
mod Tests
mod Lists
mod Equality
pub mod Int
pub mod Map
pub mod Effects
pub mod Frame
pub mod Returns
pub mod Outcome
pub mod Clean
unfoldable pub use Tests.*
pub use Lists.*
unfoldable pub use Equality.*
pub use Prim.Native.Nat.{ℕ, zero, suc, ◌+◌, ◌-◌, ◌*◌, ◌/◌, ◌%◌, ◌^◌, ◌≤◌, ◌<◌}
pub use mathlib.Core.Path.{◌≡◌, refl, sym, ap, ◌∙◌}
pub use mathlib.Core.Logic.{◌≢◌, ◌↔◌, ◌⊎◌, inl, inr}
pub use mathlib.Core.Bool.{Bool, true, false, ◌&&◌, ◌||◌, not}
pub use mathlib.Core.Option.{Option, none, some}
pub use mathlib.Core.List.{List, [], ◌∷◌, ◌++◌, map}
pub use native.Mathlib.Omega.{arith}
