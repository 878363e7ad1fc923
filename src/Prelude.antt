-- ===== src/Prelude.antt =====
-- The names that the modules share: the libraries', passed on, and those of the children.
mod Tests
mod Lists
mod Strings
mod Order
pub use Tests.*
pub use Lists.{
  length, take, drop, All, length-append, take-append-drop, take_all, drop_all, length-take,
  length-drop, take-append, drop-append, append_cancel_left, append_cancel_right,
}
unfoldable pub use Lists.{all}
pub use Strings.{
  Bytes, Str, lit, IsBytes, bytes_eq_refl, bytes_eq_symm, eq_of_bytes_eq, bytes_eq_iff,
}
unfoldable pub use Strings.{bytes_eq, starts_with}
pub use Order.{
  str_leb_total, str_leb_antisymm, str_leb_trans, str_leb_refl, str_leb-bytes_eq, bytes_eq-str_leb,
  starts_with-str_leb, starts_with_between, str_ltb, Ascending,
}
unfoldable pub use Order.{str_leb}
pub use Prim.Native.Nat.{ℕ, zero, suc, ◌+◌, ◌-◌, ◌*◌, ◌/◌, ◌%◌, ◌^◌, ◌≤◌, ◌<◌, min}
pub use Prim.Native.String.{String}
pub use mathlib.Core.Path.{◌≡◌, refl, sym, ap, ◌∙◌, ◌≡⟨◌⟩◌, ◌∎}
pub use mathlib.Core.Logic.{◌≢◌, ◌↔◌, ◌⊎◌, inl, inr}
pub use mathlib.Core.Bool.{Bool, true, false, not, ◌&&◌, ◌||◌}
pub use mathlib.Core.Option.{Option, none, some}
pub use mathlib.Core.List.{List, [], ◌∷◌, ◌++◌, map, append_assoc, append-nil}
pub use native.Mathlib.Omega.{arith}
unfoldable pub use mathlib.Core.List.{flatten}
