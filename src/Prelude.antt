-- ===== src/Prelude.antt =====
-- The names that every module shares: the library's, passed on, Boolean tests on native numbers,
-- lists over them, the tables that stand for repositories, and actions that may throw.
mod Tests
mod Lists
mod Tables
mod Keys
mod Actions
pub mod Ints
pub use Tests.*
pub use Lists.*
pub use Tables.*
unfoldable pub use Tables.{find_where, find_by_id, save_row, update_row}
pub use Keys.*
pub use Actions.*
pub use Prim.Native.Nat.{ℕ, zero, suc, ◌+◌, ◌-◌, ◌*◌, ◌/◌, ◌%◌, ◌≤◌, ◌<◌}
pub use mathlib.Core.Path.{◌≡◌, refl, sym, ap, ◌∙◌}
pub use mathlib.Core.Logic.{◌≢◌, ◌↔◌, ◌⊎◌, inl, inr}
pub use mathlib.Core.Bool.{Bool, true, false, not, ◌&&◌, ◌||◌}
pub use mathlib.Core.Option.{Option, none, some}
pub use mathlib.Core.List.{List, [], ◌∷◌, ◌++◌}
pub use native.Mathlib.Omega.{arith}
