-- ===== src/Common.antt =====
-- The names that the components share: the libraries', passed on, with the tests on native
-- numbers, the lists measured by them, and the bytes of a machine word.
mod Tests
mod Lists
mod Words
mod Texts
mod Outcome
pub mod Int
pub mod Maps
pub use Tests.*
pub use Lists.*
pub use Outcome.*
unfoldable pub use Texts.*
unfoldable pub use Words.*
pub use Prim.Native.Nat.{ℕ, zero, suc, ◌+◌, ◌-◌, ◌*◌, ◌/◌, ◌%◌, ◌^◌, ◌≤◌, ◌<◌, min, max, bit_and}
pub use Prim.Native.String.{String}
pub use mathlib.Core.Path.{◌≡◌, refl, sym, ap, ap₂, ◌∙◌, subst}
pub use mathlib.Core.Logic.{◌≢◌, ◌↔◌, ◌⊎◌, inl, inr}
pub use mathlib.Core.Bool.{Bool, true, false, not, ◌&&◌, ◌||◌}
pub use mathlib.Core.Option.{Option, none, some}
pub use mathlib.Core.List.{List, [], ◌∷◌, ◌++◌, map, append_assoc, append-nil}
pub use native.Mathlib.Omega.{arith}
