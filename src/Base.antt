-- ===== src/Base.antt =====
-- Names that every module shares: those of the libraries, passed on, and those of the children:
-- Boolean tests, lists over the native numbers, signed integers, byte strings and Go's text helpers.
mod Tests
mod Lists
mod Int
mod ByteStrings
pub mod Text
pub mod Decimal
pub mod Res
pub mod Assoc
pub use Tests.*
pub use Lists.*
unfoldable pub use Int.*
pub use ByteStrings.*
pub use Prim.Native.Nat.{ℕ, zero, suc, ◌+◌, ◌-◌, ◌*◌, ◌/◌, ◌%◌, ◌^◌, ◌≤◌, ◌<◌}
pub use mathlib.Core.Path.{◌≡◌, refl, sym, ap, ◌∙◌, subst}
pub use mathlib.Core.Logic.{◌≢◌, ◌↔◌, ◌⊎◌, inl, inr}
pub use mathlib.Core.Bool.{Bool, true, false, not, ◌&&◌, ◌||◌}
pub use mathlib.Core.Option.{Option, none, some}
pub use mathlib.Core.List.{List, [], ◌∷◌, ◌++◌, map, append-nil, append_assoc}
pub use native.Mathlib.Omega.{arith}
