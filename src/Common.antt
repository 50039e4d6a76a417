-- ===== src/Common.antt =====
-- The names that the other modules share: the libraries' names passed on, and those of the children.
mod Tests
mod Lists
mod Names
mod Sets
mod Slices
mod Ints
mod Runes
pub use Tests.*
pub use Lists.*
pub use Slices.*
pub use Ints.{ℤ, pos, negsuc, pos_part, neg_part, sub_ℕ, ltb_ℤ}
unfoldable pub use Ints.{◌-ℤ◌}
unfoldable pub use Runes.{upper_rune, is_space_rune}
unfoldable pub use Names.*
unfoldable pub use Sets.*
pub use Prim.Native.Nat.{ℕ, zero, suc, ◌+◌, ◌-◌, ◌*◌, ◌/◌, ◌%◌, ◌^◌, ◌≤◌, ◌<◌}
pub use Prim.Native.String.{String}
pub use mathlib.Core.Path.{◌≡◌, refl, sym, ap, ◌∙◌}
pub use mathlib.Core.Logic.{◌≢◌, ◌↔◌, ◌⊎◌, inl, inr}
pub use mathlib.Core.Bool.{Bool, true, false, not, ◌&&◌, ◌||◌}
pub use mathlib.Core.Option.{Option, none, some}
pub use mathlib.Core.List.{List, [], ◌∷◌, ◌++◌, map}
pub use native.Mathlib.Omega.{arith}
pub use text.Mathlib.TextEquality.{eq_iff}
