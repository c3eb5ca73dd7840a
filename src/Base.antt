-- ===== src/Base.antt =====
-- The names that the other modules share: the library's, passed on, Boolean tests, lists and maps,
-- and the monad of stateful code that may throw.
mod Tests
mod Lists
mod Maps
mod Effect
mod Loop
mod Invariants
pub use Tests.*
pub use Lists.*
pub use Maps.*
pub use Effect.*
unfoldable pub use Loop.*
pub use Invariants.*
pub use Prim.Native.Nat.{ℕ, zero, suc, ◌+◌, ◌-◌, ◌*◌, ◌/◌, ◌%◌, ◌^◌, ◌≤◌, ◌<◌, bit_or}
pub use mathlib.Core.Path.{◌≡◌, refl, sym, ap, ap₂, subst, ◌∙◌}
pub use mathlib.Core.Logic.{◌≢◌, ◌↔◌, ◌⊎◌, inl, inr}
pub use mathlib.Core.Bool.{Bool, true, false, not, ◌&&◌, ◌||◌}
pub use mathlib.Core.Option.{Option, none, some}
pub use mathlib.Core.List.{List, [], ◌∷◌, ◌++◌, map, reverse}
pub use native.Mathlib.Omega.{arith}
