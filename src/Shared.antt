-- ===== src/Shared.antt =====
-- The names that every module takes: the libraries', passed on, and those of the children, which
-- hold texts, JavaScript's `Map`, `Set` and `sort`, and the results of code that may throw.
mod Tests
mod Lists
mod Everywhere
mod Texts
mod Dicts
mod Keys
mod Outcome
pub use Tests.*
unfoldable pub use Lists.*
pub use Everywhere.*
unfoldable pub use Texts.*
unfoldable pub use Dicts.*
unfoldable pub use Keys.*
unfoldable pub use Outcome.*
pub use Prim.Native.Nat.{ℕ, zero, suc, ◌+◌, ◌-◌, ◌*◌, ◌/◌, ◌%◌, ◌≤◌, ◌<◌}
pub use mathlib.Core.Path.{◌≡◌, refl, sym, ap, ◌∙◌}
pub use mathlib.Core.Logic.{◌≢◌, ◌↔◌, ◌⊎◌, inl, inr}
pub use mathlib.Core.Bool.{Bool, true, false, not, ◌&&◌, ◌||◌}
pub use mathlib.Core.Option.{Option, none, some}
pub use mathlib.Core.List.{List, [], ◌∷◌, ◌++◌, map, append-nil, append_assoc}
pub use native.Mathlib.Omega.{arith}
