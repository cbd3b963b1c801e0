-- ===== src/Prelude.antt =====
-- The names that the other modules share: the libraries', passed on, and those of the children
-- (tests, lists, Go strings, Go maps and signed integers).
mod Tests
mod Lists
mod Text
mod Maps
mod Sorting
mod Members
pub mod Int
pub use Tests.*
pub use Lists.*
unfoldable pub use Text.{
  str_eq, str_ltb, has_prefix, has_suffix, has_substring, join, split, contains, is_identifier,
}
pub use Text.{
  Str, bytes, is_empty, is_alpha, is_word, all_word, str_eq_iff, str_eq_refl, str_eq_sym,
  str_lt_irrefl, str_lt_trans, str_lt_asym, str_lt_connected, has_prefix-append, str_not_lt_trans,
}
unfoldable pub use Maps.{lookup, insert, delete, keys}
pub use Members.*
unfoldable pub use Sorting.{insert_by, sort_by}
pub use Sorting.{
  IsWeakOrder, NoneBelow, IsSortedBy, sort_by-Perm, sort_by-IsSortedBy, by_key-IsWeakOrder,
  sort_by-nil,
}
pub use Maps.{GoMap, has_key, lookup-insert, lookup-delete, lookup-empty, map_laws}
pub use Prim.Native.Nat.{ℕ, zero, suc, ◌+◌, ◌-◌, ◌*◌, ◌/◌, ◌%◌, ◌≤◌, ◌<◌}
pub use mathlib.Core.Path.{◌≡◌, refl, sym, ap, ◌∙◌}
pub use mathlib.Core.Logic.{◌≢◌, ◌↔◌, ◌⊎◌, inl, inr}
pub use mathlib.Core.Bool.{Bool, true, false, not, ◌&&◌, ◌||◌}
pub use mathlib.Core.Option.{Option, none, some}
pub use mathlib.Core.List.{List, [], ◌∷◌, ◌++◌, map, reverse, Perm}
pub use native.Mathlib.Omega.{arith}
