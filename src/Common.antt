-- ===== src/Common.antt =====
-- The names that the other modules share: the libraries', passed on, and those of the children
-- (tests on numbers and texts, lists, machine words, bits).
mod Tests
mod Lists
mod Words
mod Bits
mod Decimal
mod Assoc
mod Int
mod Order
unfoldable pub use Tests.*
unfoldable pub use Lists.*
pub use Words.*
unfoldable pub use Bits.*
unfoldable pub use Assoc.{lookup, insert, emplace}
pub use Assoc.{lookup-insert, lookup-emplace}
unfoldable pub use Int.*
pub use Order.*
unfoldable pub use Decimal.{decimal, digits_before}
pub use Prim.Native.Nat.{ℕ, zero, suc, ◌+◌, ◌-◌, ◌*◌, ◌/◌, ◌%◌, ◌^◌, ◌≤◌, ◌<◌, min, max}
pub use Prim.Native.Nat.{bit_and, bit_or}
pub use mathlib.Core.Path.{◌≡◌, refl, sym, ap, ap₂, ◌∙◌, subst}
pub use mathlib.Core.Logic.{◌≢◌, ◌↔◌, ◌⊎◌, inl, inr}
pub use mathlib.Core.Bool.{Bool, true, false, not, ◌&&◌, ◌||◌}
pub use mathlib.Core.Option.{Option, none, some}
pub use mathlib.Core.List.{List, [], ◌∷◌, ◌++◌, map, append-nil, append_assoc}
pub use native.Mathlib.Omega.{arith}
