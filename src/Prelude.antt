-- ===== src/Prelude.antt =====
-- The names that the other modules share: the libraries', passed on, and those of the children.
mod Tests
mod Lists
mod CString
pub mod Int
pub use Tests.*
pub use Lists.*
pub use CString.{
  Bytes, same_char, bytes_eq_iff, strcmp_eq_iff, strcmp_refl, strcmp_flip, strcmp_flip_lt,
  strcmp_trans, bytes_eq_of_lt, bytes_eq_of_gt, Ordering-cases, strlen-le-length, NoNul,
  strlen-NoNul, NoNul-append,
}
unfoldable pub use CString.{lit, bytes_eq, strcmp, strlen}
pub use Prim.Native.Nat.{
  ℕ, zero, suc, ◌+◌, ◌-◌, ◌*◌, ◌/◌, ◌%◌, ◌^◌, ◌≤◌, ◌<◌, min, max, compare, Ordering,
}
pub use Prim.Native.String.{String}
pub use mathlib.Core.Path.{◌≡◌, refl, sym, ap, ◌∙◌, subst, fun_ext}
pub use mathlib.Core.Logic.{◌≢◌, ◌↔◌, ◌⊎◌, inl, inr}
pub use mathlib.Core.Bool.{Bool, true, false, not, ◌&&◌, ◌||◌}
pub use mathlib.Core.Option.{Option, none, some}
pub use mathlib.Core.List.{List, [], ◌∷◌, ◌++◌, map}
pub use native.Mathlib.Omega.{arith}
