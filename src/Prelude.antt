-- ===== src/Prelude.antt =====
-- The names that the other modules share: the libraries', passed on, and those of the children.
mod Tests
mod Lists
mod Results
mod Sort
pub mod Keyed
pub mod Members
pub mod Canonical
pub mod Distinct
pub mod Pigeonhole
pub use Tests.*
pub use Lists.*
pub use Results.*
pub use Prim.Native.Nat.{ℕ, zero, suc, ◌+◌, ◌-◌, ◌*◌, ◌/◌, ◌%◌, ◌^◌, ◌≤◌, ◌<◌, min}
pub use mathlib.Core.Path.{◌≡◌, refl, sym, ap, ap₂, subst, subst₂, ◌∙◌, fun_ext}
pub use mathlib.Core.Logic.{◌≢◌, ◌↔◌, ◌⊎◌, inl, inr}
pub use mathlib.Core.Bool.{Bool, true, false, not, ◌&&◌, ◌||◌}
pub use mathlib.Core.Option.{Option, none, some}
pub use mathlib.Core.List.{List, [], ◌∷◌, ◌++◌, map, flat_map, Memᴰ}
pub use native.Mathlib.Omega.{arith}
unfoldable pub use Sort.{insert_by, sort_by, sort_by_key}
pub use Sort.{
  IsSorted, IsTotal, sort_by-IsSorted, sort_by_of_IsSorted, sort_by_idem, key_le, key_le_total,
  sort_by_key_idem,
}
