-- ===== src/Base.antt =====
-- The names that every module shares: the libraries', passed on, and those of the children.
-- `Tests` has Boolean tests on numbers, `Eq` the equality interface, `Map` the association lists
-- that stand for hash maps, `Int32` the machine integers of the wire format.
mod Tests
mod Eq
mod Lists
mod Fallible
pub mod Action
pub mod Decimal
pub mod SortedSet
pub mod Range
mod Text
pub mod Map
pub mod Int32
pub use Tests.*
pub use Eq.{Equality, ◌==◌, nat_eq, string_eq, pair_eq, Equality-refl}
pub use Lists.*
pub use Text.{format, join}
pub use Fallible.{Result, ok, err, ◌>>=◌, ◌>>◌, ok_or, fail_if, Result-cases, ok-eq, ok≢err}
pub use Prim.Native.Nat.{ℕ, zero, suc, ◌+◌, ◌-◌, ◌*◌, ◌/◌, ◌%◌, ◌^◌, ◌≤◌, ◌<◌}
pub use Prim.Native.String.{String}
pub use mathlib.Core.Path.{◌≡◌, refl, sym, ap, ◌∙◌, subst}
pub use mathlib.Core.Logic.{◌≢◌, ◌↔◌, ◌⊎◌, inl, inr}
pub use mathlib.Core.Bool.{Bool, true, false, ◌&&◌, ◌||◌, not}
pub use mathlib.Core.Option.{Option, none, some}
pub use mathlib.Core.List.{List, [], ◌∷◌, ◌++◌, map}
pub use native.Mathlib.Omega.{arith}
