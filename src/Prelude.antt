-- ===== src/Prelude.antt =====
-- The names that the other modules share: those of the libraries and of the children.
mod Tests
mod Panics
mod Counts
mod Lists
mod Ranges
pub mod Bits
pub use Tests.*
pub use Panics.*
pub use Counts.*
pub use Lists.*
pub use Ranges.{every-lt, exists_witness}
unfoldable pub use Ranges.{every, exists}
pub use Prim.Native.Nat.{ℕ, zero, suc, ◌+◌, ◌-◌, ◌*◌, ◌/◌, ◌%◌, ◌^◌, ◌≤◌, ◌<◌, min, bit_and, bit_or}
pub use mathlib.Core.Path.{◌≡◌, refl, sym, ap, subst, fun_ext, ◌∙◌}
pub use mathlib.Core.Logic.{◌≢◌, ◌↔◌, ◌⊎◌, inl, inr, ite}
pub use mathlib.Core.Bool.{Bool, true, false, not, ◌&&◌, ◌||◌}
pub use mathlib.Core.Option.{Option, none, some}
pub use mathlib.Core.List.{List, [], ◌∷◌, ◌++◌, map}
pub use native.Mathlib.Omega.{arith}
unfoldable pub use native.Mathlib.Decide.{dec_lt, ℕ_discrete}
