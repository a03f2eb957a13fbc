-- ===== src/Prelude.antt =====
-- Names that every module shares: the libraries', passed on, and those of the children below.
mod Tests
mod Lists
mod Totals
mod Assoc
mod Order
mod Sorted
pub use Tests.*
pub use Lists.*
unfoldable pub use Totals.{count, entries}
pub use Totals.{
  total, total_below, total_below-change, AllBelow, AllBelow-intro, AllBelow-elim, total_below-le,
  lt_suc-cases, Unique, total-erase_found, total-insert, total-insert_found, total-found,
  Unique-erase, Unique-insert,
}
unfoldable pub use Assoc.{lookup, insert, erase, last}
pub use Sorted.{
  IsAscending, IsBelow, IsDistinct, In-sort_strings, sort_strings-IsAscending, IsAscending-eq,
}
unfoldable pub use Sorted.{sort_strings, insert_sorted}
unfoldable pub use Order.{str_ltb}
pub use Assoc.{or_else, lookup-insert, lookup-insert_self, lookup-erase}
pub use Prim.Native.Nat.{ℕ, zero, suc, ◌+◌, ◌-◌, ◌*◌, ◌/◌, ◌%◌, ◌^◌, ◌≤◌, ◌<◌}
pub use Prim.Native.String.{String}
pub use mathlib.Core.Path.{◌≡◌, refl, sym, ap, ap₂, ◌∙◌, subst, fun_ext}
pub use mathlib.Core.Logic.{◌≢◌, ◌↔◌, ◌⊎◌, inl, inr}
pub use mathlib.Core.Bool.{Bool, true, false, ◌&&◌, ◌||◌, not}
pub use mathlib.Core.Option.{Option, none, some}
pub use mathlib.Core.List.{List, [], ◌∷◌, ◌++◌, map}
pub use native.Mathlib.Omega.{arith}
pub use text.Mathlib.Text.{◌==◌ as str_eq}
pub use text.Mathlib.TextEquality.{eq_iff}
