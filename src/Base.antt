-- ===== src/Base.antt =====
-- Names that every module shares: the libraries' and those of the children.
mod Tests
mod Lists
mod Table
mod Sort
mod Members
mod Text
mod Stamps
pub mod Int
pub use Tests.*
pub use Lists.*
pub use Table.*
pub use Members.*
pub use Sort.{
  insert_sorted, IsOrdered, All-sort_by, All-sort_by_inv, Any-sort_by, Any-sort_by_inv,
  sort_by-IsOrdered,
}
unfoldable pub use Sort.{sort_by}
pub use Text.*
pub use Stamps.*
pub use Prim.Native.Nat.{ℕ, zero, suc, ◌+◌, ◌-◌, ◌*◌, ◌/◌, ◌%◌, ◌^◌, ◌≤◌, ◌<◌, min, max}
pub use Prim.Native.String.{String}
pub use mathlib.Core.Path.{◌≡◌, refl, sym, ap, ◌∙◌}
pub use mathlib.Core.Logic.{◌≢◌, ◌↔◌, ◌⊎◌, inl, inr}
pub use mathlib.Core.Bool.{Bool, true, false, not, ◌&&◌, ◌||◌}
pub use mathlib.Core.Option.{Option, none, some}
pub use mathlib.Core.List.{List, [], ◌∷◌, ◌++◌, map}
pub use native.Mathlib.Omega.{arith}
