-- ===== src/Base.antt =====
-- The names that the other modules share: the libraries', passed on, and those of the children.
mod Tests
mod Lists
mod Strings
mod Members
pub use Tests.*
pub use Lists.*
pub use Members.*
pub use Strings.{Text, codes, text_eq_sound, text_eq_self, is_empty}
unfoldable pub use Strings.{
  text_eq, is_space, drop_spaces, strip, starts_with, has_infix, has_code, before_code, split_last,
  has_text, lookup,
}
pub use Prim.Native.Nat.{ℕ, zero, suc, ◌+◌, ◌-◌, ◌*◌, ◌/◌, ◌%◌, ◌^◌, ◌≤◌, ◌<◌, max, min}
pub use mathlib.Core.Path.{◌≡◌, refl, sym, ap, ◌∙◌, subst, fun_ext}
pub use mathlib.Core.Logic.{◌≢◌, ◌↔◌, ◌⊎◌, inl, inr}
pub use mathlib.Core.Bool.{Bool, true, false, ◌&&◌, ◌||◌, not, false≢true}
pub use mathlib.Core.Option.{Option, none, some}
pub use mathlib.Core.List.{
  List, [], ◌∷◌, ◌++◌, map, foldl, reverse, append-nil, append_assoc, flat_map,
}
pub use native.Mathlib.Omega.{arith}
