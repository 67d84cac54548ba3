-- ===== src/Base.antt =====
-- The names that the modules share: tests on numbers, lists, C strings, and the libraries' names.
mod Tests
mod Lists
mod Bools
mod Chars
pub use Tests.*
pub use Lists.*
pub use Bools.*
unfoldable pub use Chars.{equal, starts_with, split_line, after_nul, has_byte}
pub use Chars.{
  Bytes, codes, equal_iff, equal_refl, Follows, Follows-refl, Follows-trans, starts_with-Follows,
  split_line-Follows,
}
pub use Prim.Native.Nat.{ℕ, zero, suc, ◌+◌, ◌-◌, ◌*◌, ◌/◌, ◌%◌, ◌≤◌, ◌<◌}
pub use mathlib.Core.Path.{◌≡◌, refl, sym, ap, ◌∙◌, subst}
pub use mathlib.Core.Logic.{◌≢◌, ◌↔◌, ◌⊎◌, inl, inr}
pub use mathlib.Core.Bool.{Bool, true, false, not, ◌&&◌, ◌||◌}
pub use mathlib.Core.Option.{Option, none, some}
pub use mathlib.Core.List.{List, [], ◌∷◌, ◌++◌}
pub use native.Mathlib.Omega.{arith}
