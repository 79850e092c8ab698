-- ===== src/Common.antt =====
-- The names that every module shares: the libraries', passed on, and those of the children.
mod Tests
mod Equality
mod Lists
mod Slices
mod Bytes
mod Bits
mod Toggles
mod Options
mod Maps
mod Decimals
mod Splits
mod Keys
mod Sorting
pub use Tests.*
pub use Equality.*
pub use Lists.*
pub use Slices.*
pub use Bytes.*
pub use Bits.*
pub use Toggles.*
pub use Options.*
pub use Maps.*
unfoldable pub use Decimals.*
pub use Splits.*
pub use Keys.*
unfoldable pub use Sorting.*
pub use Prim.Native.Nat.{ℕ, zero, suc, ◌+◌, ◌-◌, ◌*◌, ◌/◌, ◌%◌, ◌^◌, ◌≤◌, ◌<◌, min, max}
pub use mathlib.Core.Path.{◌≡◌, refl, sym, ap, ◌∙◌, subst}
pub use mathlib.Core.Logic.{◌≢◌, ◌↔◌, ◌⊎◌, inl, inr}
pub use mathlib.Core.Bool.{Bool, true, false, not, ◌&&◌, ◌||◌}
pub use mathlib.Core.Option.{Option, none, some}
pub use mathlib.Core.List.{List, [], ◌∷◌, ◌++◌, map, reverse, reverse_aux}
pub use native.Mathlib.Omega.{arith}
