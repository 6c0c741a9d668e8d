-- ===== src/Prelude.antt =====
-- The names that the other modules share: the libraries', passed on, and those of the children.
mod Tests
mod Lists
mod Strings
pub mod Int
pub mod Sort
pub mod Decimal
pub mod Hex
pub mod Sets
pub mod Dict
pub use Tests.*
pub use Lists.*
pub use Strings.{
  Text, codes, same_iff, same_refl, same_comm, before_irrefl, before_trans, before_antisym,
  to_lower, to_lower_idem, lower_idem, equal_fold_refl, trim_space-solid,
}
unfoldable pub use Strings.{
  same, before, lower, equal_fold, is_empty, is_space, trim_space, strip_prefix?, trim_prefix,
}
pub use Prim.Native.Nat.{ℕ, zero, suc, ◌+◌, ◌-◌, ◌*◌, ◌/◌, ◌%◌, ◌^◌, ◌≤◌, ◌<◌, min, max}
pub use Prim.Native.String.{String}
pub use mathlib.Core.Path.{◌≡◌, refl, sym, ap, ◌∙◌}
pub use mathlib.Core.Logic.{◌≢◌, ◌↔◌, ◌⊎◌, inl, inr}
pub use mathlib.Core.Bool.{Bool, true, false, ◌&&◌, ◌||◌, not}
pub use mathlib.Core.Option.{Option, none, some}
pub use mathlib.Core.List.{List, [], ◌∷◌, ◌++◌, map, append-nil, append_assoc}
pub use native.Mathlib.Omega.{arith}
