-- ===== src/Common.antt =====
-- Names that all modules share: the libraries', passed on, and those of the children below.
-- `Tests`: Boolean tests and the conditional; `Keys`: equality as an interface; `Lists`: lists
-- measured by native numbers; `Int`: Decimal values as whole numbers of a quantum.
mod Tests
mod Lists
mod Keys
pub mod Int
pub mod Dict
pub mod Result
pub mod Text
pub mod Sort
pub use Tests.*
pub use Lists.*
pub use Keys.*
pub use Prim.Native.Nat.{ℕ, zero, suc, ◌+◌, ◌-◌, ◌*◌, ◌/◌, ◌%◌, ◌≤◌, ◌<◌, min, max}
pub use mathlib.Core.Path.{◌≡◌, refl, sym, subst, subst₂, ap, ◌∙◌}
pub use mathlib.Core.Logic.{◌≢◌, ◌↔◌, ◌⊎◌, inl, inr}
pub use mathlib.Core.Bool.{Bool, true, false, not, ◌&&◌, ◌||◌}
pub use mathlib.Core.Option.{Option, none, some}
pub use mathlib.Core.List.{List, [], ◌∷◌, ◌++◌, map}
pub use native.Mathlib.Omega.{arith}
