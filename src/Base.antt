-- ===== src/Base.antt =====
-- The names that the components share: the libraries', passed on, and those of the children below.
-- `Eq` is Go's `==` on comparable types, `Dict` is a Go map, `Outcome` is a call that returns a
-- value or an error, or that panics.
mod Tests
mod Lists
mod Eq
mod Text
pub mod Int
pub mod Dict
pub mod Outcome
pub use Int.{ℤ, pos, negsuc, int_equality}
pub use Tests.*
pub use Lists.*
pub use Text.*
pub use Eq.{Equality, ◌==◌, nat_equality, string_equality, eq_refl, eq_sym}
pub use Prim.Native.Nat.{ℕ, zero, suc, ◌+◌, ◌-◌, ◌*◌, ◌/◌, ◌%◌, ◌^◌, ◌≤◌, ◌<◌}
pub use Prim.Native.String.{String}
pub use mathlib.Core.Path.{◌≡◌, refl, sym, ap, subst, ◌∙◌}
pub use mathlib.Core.Logic.{◌≢◌, ◌↔◌, ◌⊎◌, inl, inr}
pub use mathlib.Core.Bool.{Bool, true, false, not, ◌&&◌, ◌||◌}
pub use mathlib.Core.Option.{Option, none, some}
pub use mathlib.Core.List.{List, [], ◌∷◌, ◌++◌, map}
pub use native.Mathlib.Omega.{arith}
