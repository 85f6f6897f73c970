-- ===== src/Prelude.antt =====
-- The names that every other file uses: the libraries', passed on, and those of the children.
-- The children hold C's tests and words, arrays as lists, and the bits of a word.
pub mod Tests
pub mod Lists
pub mod Bits
pub mod Words
pub mod Tables
pub mod Order
pub mod Shifts
pub mod Slices
pub use Tests.*
pub use Lists.*
pub use Words.*
pub use Bits.*
unfoldable pub use Tables.{all_below}
pub use Tables.{all_below_sound}
pub use Prim.Native.Nat.{ℕ, zero, suc, ◌+◌, ◌-◌, ◌*◌, ◌/◌, ◌%◌, ◌^◌, ◌≤◌, ◌<◌}
pub use Prim.Native.Nat.{bit_and, bit_or, bit_xor, min, max}
pub use mathlib.Core.Path.{◌≡◌, refl, sym, ap, ap₂, ◌∙◌, subst}
pub use mathlib.Core.Logic.{◌≢◌, ◌↔◌, ◌⊎◌, inl, inr}
pub use mathlib.Core.Bool.{Bool, true, false, not, ◌&&◌, ◌||◌}
pub use mathlib.Core.Option.{Option, none, some}
pub use mathlib.Core.List.{List, [], ◌∷◌, ◌++◌, map}
pub use native.Mathlib.Omega.{arith}
unfoldable pub use native.Mathlib.Decide.{dec_lt, ℕ_discrete}
