-- ===== src/Prelude.antt =====
-- Shared by every module: the libraries' names passed on, Boolean tests on the native numbers,
-- lists under native indices, Go's signed integers, equality as an interface, and Go's
-- (value, error) pair.
mod Tests
mod Lists
mod Fallible
mod Int
mod Equality
mod Maps
mod Order
pub mod Action
pub use Tests.*
pub use Lists.*
pub use Fallible.*
pub use Int.*
unfoldable pub use Maps.*
pub use Equality.*
pub use Order.*
pub use Prim.Native.Nat.{ℕ, zero, suc, ◌+◌, ◌-◌, ◌*◌, ◌/◌, ◌%◌, ◌^◌, ◌≤◌, ◌<◌}
pub use mathlib.Core.Path.{◌≡◌, refl, sym, ap, ap₂, subst, ◌∙◌}
pub use mathlib.Core.Logic.{◌≢◌, ◌↔◌, ◌⊎◌, inl, inr}
pub use mathlib.Core.Bool.{Bool, true, false, not, ◌&&◌, ◌||◌}
pub use mathlib.Core.Option.{Option, none, some}
pub use mathlib.Core.List.{List, [], ◌∷◌, ◌++◌, map, reverse, append_assoc, append-nil}
pub use native.Mathlib.Omega.{arith}
