-- ===== src/Common.antt =====
-- The names that the other modules share: those of the libraries, and those of the children, which
-- hold Boolean tests, lists over the native numbers, byte strings and signed integers.
mod Tests
mod Lists
mod ByteStrings
mod Int
mod Options
mod Text
mod Strings
pub use Tests.*
pub use Lists.*
pub use ByteStrings.*
pub use Int.*
pub use Options.*
unfoldable pub use Text.*
unfoldable pub use Strings.*
pub use Prim.Native.Nat.{ℕ, zero, suc, ◌+◌, ◌-◌, ◌*◌, ◌/◌, ◌%◌, ◌^◌, ◌≤◌, ◌<◌}
pub use mathlib.Core.Bool.{Bool, true, false, not, ◌&&◌, ◌||◌}
pub use mathlib.Core.List.{List, [], ◌∷◌, ◌++◌, map, append-nil, append_assoc}
pub use mathlib.Core.Logic.{◌≢◌, ◌↔◌, ◌⊎◌, inl, inr}
pub use mathlib.Core.Option.{Option, none, some}
pub use mathlib.Core.Path.{◌≡◌, refl, sym, ap, ◌∙◌}
pub use native.Mathlib.Omega.{arith}
