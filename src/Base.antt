-- ===== src/Base.antt =====
-- The names that the other modules share: those of the libraries and of the children of this file.
mod Tests
mod Lists
mod ByteStr
mod Fallible
pub mod Str
pub mod Map
pub mod Utf8
pub mod Decimal
pub mod Bits
pub mod Effect
pub mod Int
unfoldable pub use Tests.*
pub use Lists.*
unfoldable pub use ByteStr.*
pub use Fallible.*
pub use Prim.Native.Nat.{ℕ, zero, suc, ◌+◌, ◌-◌, ◌*◌, ◌/◌, ◌%◌, ◌^◌, ◌≤◌, ◌<◌}
pub use Prim.Native.Nat.{min, max, compare, Ordering}
pub use mathlib.Core.Path.{◌≡◌, refl, sym, ap, ◌∙◌, subst}
pub use mathlib.Core.Logic.{◌≢◌, ◌↔◌, ◌⊎◌, inl, inr}
pub use mathlib.Core.Bool.{Bool, true, false, not, ◌&&◌, ◌||◌}
pub use mathlib.Core.Option.{Option, none, some}
pub use mathlib.Core.List.{List, [], ◌∷◌, ◌++◌, map, append_assoc, append-nil}
pub use native.Mathlib.Omega.{arith}
