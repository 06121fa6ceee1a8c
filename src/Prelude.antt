-- ===== src/Prelude.antt =====
-- The names that the other modules share: the libraries', passed on, and those of the children.
mod Tests
mod Lists
mod Texts
mod Endian
mod Members
pub use Tests.*
pub use Lists.{
  length, get_or, take, drop, replicate, null, any, all, filter, find?, All, length-append,
  take-append_length, drop-append_length, length-take, length-drop, length-replicate,
  drop-append_add, get_or-append_add, slice-append_add, slice_middle, slice_at, find?-found,
  find?-append, find?-none, any-append, all-append,
}
unfoldable pub use Lists.{slice}
pub use Texts.{Text, Bytes, IsByte, codes, text_eq→eq, text_eq_refl, text_eq_iff}
unfoldable pub use Texts.{text_eq}
pub use Endian.*
pub use Members.*
pub use Prim.Native.Nat.{ℕ, zero, suc, ◌+◌, ◌-◌, ◌*◌, ◌/◌, ◌%◌, ◌^◌, ◌≤◌, ◌<◌}
pub use mathlib.Core.Path.{◌≡◌, refl, sym, ap, ◌∙◌}
pub use mathlib.Core.Logic.{◌≢◌, ◌↔◌, ◌⊎◌, inl, inr}
pub use mathlib.Core.Bool.{Bool, true, false, not, ◌&&◌, ◌||◌}
pub use mathlib.Core.Option.{Option, none, some}
pub use mathlib.Core.List.{List, [], ◌∷◌, ◌++◌, append-nil, append_assoc}
pub use native.Mathlib.Omega.{arith}
