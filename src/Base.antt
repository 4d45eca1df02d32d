-- ===== src/Base.antt =====
-- Shared names: the library's, passed on, Boolean tests on the native numbers, lists measured by
-- them, and finite maps as functions. No code of the repository is modelled here.
mod Tests
mod Lists
mod Maps
mod Counting
pub use Tests.*
pub use Lists.*
pub use Counting.{Distinct, Distinct-length}
unfoldable pub use Maps.{update}
pub use Maps.{update_self, update_ne, update-related}
pub use Prim.Native.Nat.{ℕ, zero, suc, ◌+◌, ◌-◌, ◌*◌, ◌/◌, ◌%◌, ◌^◌, ◌≤◌, ◌<◌, min}
pub use mathlib.Core.Path.{◌≡◌, refl, sym, ap, ◌∙◌, subst}
pub use mathlib.Core.Logic.{◌≢◌, ◌↔◌, ◌⊎◌, inl, inr}
pub use mathlib.Core.Bool.{Bool, true, false, ◌&&◌, ◌||◌, not}
pub use mathlib.Core.Option.{Option, none, some}
pub use mathlib.Core.List.{List, [], ◌∷◌, ◌++◌, map}
pub use native.Mathlib.Omega.{arith}
