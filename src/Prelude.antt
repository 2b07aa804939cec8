-- ===== src/Prelude.antt =====
-- The names that the modules share: the libraries', passed on, and those of the children.
mod Tests
mod Equality
mod Lists
mod Strings
pub mod Map
pub mod Sets
pub mod Sorted
pub use Tests.*
pub use Equality.*
pub use Lists.*
unfoldable pub use Strings.{split, join, rsplit_once, decimal_digits, decimal}
pub use Strings.{Text, codes, starts_with, contains}
pub use Strings.Pieces.{
  has, has-split, split_piece, split-append, split-join, rsplit_once_parts, rsplit_once-none,
}
pub use Prim.Native.Nat.{ℕ, zero, suc, ◌+◌, ◌-◌, ◌*◌, ◌/◌, ◌%◌, ◌^◌, ◌≤◌, ◌<◌}
pub use mathlib.Core.Path.{◌≡◌, refl, sym, ap, ◌∙◌}
pub use mathlib.Core.Logic.{◌≢◌, ◌↔◌, ◌⊎◌, inl, inr}
pub use mathlib.Core.Bool.{Bool, true, false, not, ◌&&◌, ◌||◌}
pub use mathlib.Core.Option.{Option, none, some}
pub use mathlib.Core.List.{List, [], ◌∷◌, ◌++◌, map, Memᴰ}
pub use native.Mathlib.Omega.{arith}
