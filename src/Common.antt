-- ===== src/Common.antt =====
-- The names that the other modules share: the libraries', passed on, the Boolean tests and the
-- conditional, and the children for machine words, lists and functions as arrays.
pub mod Tests
pub mod Words
pub mod Arrays
pub mod Xor
pub mod Bytes
pub mod Wires
pub mod Results
pub mod Fallible
pub mod Attempts
pub use Tests.*
pub use Prim.Native.Nat.{ℕ, zero, suc, ◌+◌, ◌-◌, ◌*◌, ◌/◌, ◌%◌, ◌^◌, ◌≤◌, ◌<◌}
pub use mathlib.Core.Path.{◌≡◌, refl, sym, ap, ◌∙◌}
pub use mathlib.Core.Logic.{◌≢◌, ◌↔◌, ◌⊎◌, inl, inr}
pub use mathlib.Core.Bool.{Bool, true, false, not, ◌&&◌, ◌||◌}
pub use mathlib.Core.Option.{Option, none, some}
pub use mathlib.Core.List.{List, [], ◌∷◌, ◌++◌}
pub use native.Mathlib.Omega.{arith}
