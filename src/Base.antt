-- ===== src/Base.antt =====
-- The names that the modules of this library share: those of the mounted libraries, passed on,
-- Boolean tests on numbers, and lists with lengths in the native numbers.
mod Tests
mod Lists
mod Slices
mod Words
mod Codes
mod Options
pub use Tests.*
pub use Lists.*
pub use Slices.*
unfoldable pub use Words.{add_u64}
pub use Words.{add_u64-in_range, add_u64-unchecked, add_u64-none}
pub use Codes.*
pub use Options.*
pub use Prim.Native.Nat.{ℕ, zero, suc, ◌+◌, ◌-◌, ◌*◌, ◌/◌, ◌%◌, ◌^◌, ◌≤◌, ◌<◌, min, max}
pub use mathlib.Core.Path.{◌≡◌, refl, sym, ap, ◌∙◌, subst}
pub use mathlib.Core.Logic.{◌≢◌, ◌↔◌, ◌⊎◌, inl, inr}
pub use mathlib.Core.Bool.{Bool, true, false, not, ◌&&◌, ◌||◌}
pub use mathlib.Core.Option.{Option, none, some}
pub use mathlib.Core.List.{
  List, [], ◌∷◌, ◌++◌, map, append_assoc, append-nil, reverse, reverse-append,
}
pub use native.Mathlib.Omega.{arith}
