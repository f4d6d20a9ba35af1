-- ===== src/Common.antt =====
-- Names shared by all modules: library names passed on, and the helpers of the child modules.
mod Tests
mod Lists
mod Keys
mod Maps
mod Panics
mod Strings
pub mod Bits
mod Decimal
mod Results
pub mod Int
pub use Tests.*
pub use Lists.*
pub use Keys.*
unfoldable pub use Keys.{bytes_discrete}
pub use Maps.*
pub use Panics.*
pub use Results.*
pub use Strings.*
pub use Decimal.*
unfoldable pub use Decimal.{digits_from, decimal, parse_digits}
unfoldable pub use Strings.{starts_with, contains}
unfoldable pub use Panics.{cut, remove_at}
unfoldable pub use Maps.{lookup, insert, delete}
pub use Prim.Native.Nat.{ℕ, zero, suc, ◌+◌, ◌-◌, ◌*◌, ◌/◌, ◌%◌, ◌^◌, ◌≤◌, ◌<◌, compare, Ordering}
pub use mathlib.Core.Path.{◌≡◌, refl, sym, ap, subst, ◌∙◌}
pub use mathlib.Core.Logic.{◌≢◌, ◌↔◌, ◌⊎◌, inl, inr}
pub use mathlib.Core.Bool.{Bool, true, false, not, ◌&&◌, ◌||◌}
pub use mathlib.Core.Option.{Option, none, some}
pub use mathlib.Core.List.{List, [], ◌∷◌, ◌++◌, map}
pub use native.Mathlib.Omega.{arith}
unfoldable pub use native.Mathlib.Decide.{dec_lt, ℕ_discrete}
