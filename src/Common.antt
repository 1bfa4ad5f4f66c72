-- ===== src/Common.antt =====
-- The names that the other modules share: those of the libraries, Boolean tests, lists indexed by
-- native numbers, the C `int`, and the bytes of C++ objects.
mod Tests
mod Lists
mod Int
pub use Tests.*
pub use Lists.*
unfoldable pub use Int.{◌==ℤ◌, is_nonneg, to_size, narrow}
pub use Int.{
  ℤ, pos, negsuc, minus_one, ==ℤ_iff, ==ℤ_refl, narrow-pos, narrow-minus_one, Cell, byte,
  unspecified,
}
pub use Prim.Native.Nat.{ℕ, zero, suc, ◌+◌, ◌-◌, ◌*◌, ◌/◌, ◌%◌, ◌^◌, ◌≤◌, ◌<◌, min, max}
pub use mathlib.Core.Path.{◌≡◌, refl, sym, ap, ap₂, ◌∙◌, fun_ext}
pub use mathlib.Core.Logic.{◌≢◌, ◌↔◌, ◌⊎◌, inl, inr}
pub use mathlib.Core.Bool.{Bool, true, false, not, ◌&&◌, ◌||◌}
pub use mathlib.Core.Option.{Option, none, some}
pub use mathlib.Core.List.{List, [], ◌∷◌, ◌++◌, map, append-nil, append_assoc}
pub use native.Mathlib.Omega.{arith}
