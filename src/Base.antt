-- ===== src/Base.antt =====
-- The names that the other modules share: the libraries', passed on, and those of its children.
mod Tests
mod Int
mod Lists
mod Search
mod Keys
mod Filters
pub use Tests.*
unfoldable pub use Int.*
unfoldable pub use Lists.*
pub use Search.*
pub use Keys.*
pub use Filters.*
pub use Prim.Native.Nat.{ℕ, zero, suc, ◌+◌, ◌-◌, ◌*◌, ◌/◌, ◌≤◌, ◌<◌, max}
pub use mathlib.Core.Path.{◌≡◌, refl, sym, ap, ◌∙◌, subst}
pub use mathlib.Core.Logic.{◌≢◌, ◌↔◌, ◌⊎◌, inl, inr}
pub use mathlib.Core.Bool.{Bool, true, false, not, ◌&&◌, ◌||◌}
pub use mathlib.Core.Option.{Option, none, some}
pub use mathlib.Core.List.{List, [], ◌∷◌, ◌++◌, map, Memᴰ}
pub use native.Mathlib.Omega.{arith}
