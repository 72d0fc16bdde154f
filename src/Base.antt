-- ===== src/Base.antt =====
-- Names that every component shares: library names passed on, and those of the children.
mod Tests
mod Lists
mod Classes
mod Results
mod Int
mod Maps
mod Entries
mod Text
mod Decimal
mod Order
unfoldable pub use Tests.*
unfoldable pub use Lists.*
unfoldable pub use Classes.*
pub use Results.*
unfoldable pub use Int.*
unfoldable pub use Maps.*
unfoldable pub use Entries.*
unfoldable pub use Text.*
unfoldable pub use Decimal.*
unfoldable pub use Order.*
pub use Prim.Native.Nat.{ℕ, zero, suc, ◌+◌, ◌-◌, ◌*◌, ◌/◌, ◌%◌, ◌^◌, ◌≤◌, ◌<◌}
pub use mathlib.Core.Path.{◌≡◌, refl, sym, ap, ap₂, ◌∙◌, subst, fun_ext}
pub use mathlib.Core.Logic.{◌≢◌, ◌↔◌, ◌⊎◌, inl, inr}
pub use mathlib.Core.Bool.{Bool, true, false, ◌&&◌, ◌||◌, not}
pub use mathlib.Core.Option.{Option, none, some}
pub use mathlib.Core.List.{List, [], ◌∷◌, ◌++◌, map}
pub use native.Mathlib.Omega.{arith}
