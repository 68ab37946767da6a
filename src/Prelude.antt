-- ===== src/Prelude.antt =====
-- The names that the modules share: the libraries', passed on, and those of the children.
mod Tests
mod Lists
pub mod Int
mod Table
pub mod First
pub mod Sorted
pub mod Dict
pub use Tests.*
pub use Lists.*
unfoldable pub use Table.{
  All, update_where, count_where, select_where, first_where, update_first, insert_by, order_by,
  sum_by,
}
pub use Table.{
  All-append, All-update_where, if_both, update_where_none, count_where_none, updated_row,
  count_where-update_where, sum_by-update_where_sub, sum_by-update_where-All,
  sum_by-update_where_add, sum_by-update_where_same,
}
pub use Prim.Native.Nat.{ℕ, zero, suc, ◌+◌, ◌-◌, ◌*◌, ◌/◌, ◌%◌, ◌^◌, ◌≤◌, ◌<◌, min, max}
pub use mathlib.Core.Path.{◌≡◌, refl, sym, ap, ◌∙◌, subst}
pub use mathlib.Core.Logic.{◌≢◌, ◌↔◌, ◌⊎◌, inl, inr}
pub use mathlib.Core.Bool.{Bool, true, false, not, ◌&&◌, ◌||◌}
pub use mathlib.Core.Option.{Option, none, some}
pub use mathlib.Core.List.{List, [], ◌∷◌, ◌++◌, map}
pub use native.Mathlib.Omega.{arith}
