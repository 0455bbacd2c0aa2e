-- ===== src/Base.antt =====
-- Names shared by every part of the model: the libraries', passed on, and those of the children.
mod Tests
mod Lists
mod Texts
mod Assoc
mod Results
mod Decimal
mod Members
mod Filters
mod Counting
mod Sorting
mod Splitting
pub mod Int
pub use Tests.*
pub use Members.*
pub use Filters.*
pub use Counting.*
pub use Sorting.*
unfoldable pub use Splitting.*
unfoldable pub use Decimal.*
pub use Results.*
pub use Lists.*
unfoldable pub use Texts.*
unfoldable pub use Assoc.*
pub use Prim.Native.Nat.{ℕ, zero, suc, ◌+◌, ◌-◌, ◌*◌, ◌/◌, ◌%◌, ◌^◌, ◌≤◌, ◌<◌}
pub use mathlib.Core.Path.{◌≡◌, refl, sym, ap, subst, ◌∙◌}
pub use mathlib.Core.Logic.{◌≢◌, ◌↔◌, ◌⊎◌, inl, inr}
pub use mathlib.Core.Bool.{Bool, true, false, not, ◌&&◌, ◌||◌}
pub use mathlib.Core.Option.{Option, none, some}
pub use mathlib.Core.List.{
  List, [], ◌∷◌, ◌++◌, map, map-append, Memᴰ, Permᴰ, append-nil, append_assoc,
}
pub use native.Mathlib.Omega.{arith}
