-- ===== src/Prelude.antt =====
-- The names that the modules share: the libraries', passed on, and those of the children (tests on
-- numbers, lists measured by native numbers, orders and sorting, byte strings, outcomes).
mod Tests
mod Lists
mod Sorting
mod Permutation
mod ByteStrings
pub mod Partial
pub mod Outcome
pub mod Texts
unfoldable pub use Tests.*
unfoldable pub use Lists.*
unfoldable pub use Sorting.*
pub use Permutation.*
unfoldable pub use ByteStrings.*
pub use Prim.Native.Nat.{ℕ, zero, suc, ◌+◌, ◌-◌, ◌*◌, ◌/◌, ◌%◌, ◌^◌, ◌≤◌, ◌<◌}
pub use Prim.Native.Nat.{bit_and, bit_or}
pub use Prim.Native.String.{String}
pub use mathlib.Core.Path.{◌≡◌, refl, sym, ap, ap₂, ◌∙◌}
pub use mathlib.Core.Logic.{◌≢◌, ◌↔◌, ◌⊎◌, inl, inr}
pub use mathlib.Core.Bool.{Bool, true, false, not, ◌&&◌, ◌||◌}
pub use mathlib.Core.Option.{Option, none, some}
pub use mathlib.Core.List.{List, [], ◌∷◌, ◌++◌, map, append_assoc, append-nil}
pub use native.Mathlib.Omega.{arith}
