-- ===== src/Common.antt =====
-- The names that the models of the exercises share: the libraries', passed on, and those of its
-- children: Boolean tests, lists indexed by native numbers, which stand for C arrays, loops,
-- integers.
mod Tests
mod Lists
pub mod Int
pub mod Loops
pub mod Arrays
pub mod Totals
pub use Tests.*
pub use Lists.*
pub use Arrays.*
unfoldable pub use Loops.{loop}
unfoldable pub use Totals.{total}
pub use Totals.{total-at, total-swap}
pub use Loops.{loop-add, loop_keeps}
pub use Int.{ℤ, pos, negsuc, eq_ℤ, eq_ℤ_iff, minus_one, is_positive, rounds_of}
pub use Prim.Native.Nat.{ℕ, zero, suc, ◌+◌, ◌-◌, ◌*◌, ◌/◌, ◌%◌, ◌^◌, ◌≤◌, ◌<◌, min}
pub use mathlib.Core.Path.{◌≡◌, refl, sym, ap, ◌∙◌}
pub use mathlib.Core.Logic.{◌≢◌, ◌↔◌, ◌⊎◌, inl, inr}
pub use mathlib.Core.Bool.{Bool, true, false, ◌&&◌, ◌||◌, not}
pub use mathlib.Core.Option.{Option, none, some}
pub use mathlib.Core.List.{List, [], ◌∷◌, ◌++◌, map, append_assoc, append-nil}
pub use native.Mathlib.Omega.{arith}
unfoldable pub use native.Mathlib.Decide.{dec_lt, ℕ_discrete}
