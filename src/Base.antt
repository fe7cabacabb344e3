-- ===== src/Base.antt =====
-- The names that the other modules share: the libraries', passed on, and those of the children.
mod Tests
mod Lists
mod Words
mod Options
mod Text
mod Unique
mod Integers
pub use Tests.*
pub use Lists.*
pub use Words.{
  u8_max, u16_mod, u32_mod, length-to_le, from_le-to_le, to_le-from_le, from_le-lt, to_le_one,
}
unfoldable pub use Words.{to_le, from_le}
pub use Options.*
pub use Unique.*
pub use Integers.{ℤ, pos, negsuc, negate, int_ltb, clamp-le, diff, add_nat-diff, sub_nat-diff}
unfoldable pub use Integers.{clamp, add_nat, sub_nat}
pub use Text.{
  front, back, keep-All, All-keep, length-keep-le, length-trim_front-le, length-trim_back-le,
  trim_front-All, trim_back-All, front-trim_front, back-trim_back, back-trim_front,
  trim_front_fixed, trim_back_fixed,
}
unfoldable pub use Text.{keep, trim_front, trim_back}
pub use Prim.Native.Nat.{
  ℕ, zero, suc, ◌+◌, ◌-◌, ◌*◌, ◌/◌, ◌%◌, ◌^◌, ◌≤◌, ◌<◌, min, max, compare, Ordering,
}
pub use mathlib.Core.Path.{◌≡◌, refl, sym, ap, ap₂, subst, fun_ext, ◌∙◌, ◌≡⟨◌⟩◌, ◌∎}
pub use mathlib.Core.Logic.{◌≢◌, ◌↔◌, ◌⊎◌, inl, inr}
pub use mathlib.Core.Bool.{Bool, true, false, not, ◌&&◌, ◌||◌}
pub use mathlib.Core.Option.{Option, none, some}
pub use mathlib.Core.List.{List, [], ◌∷◌, ◌++◌, map, append-nil, append_assoc}
pub use native.Mathlib.Omega.{arith}
