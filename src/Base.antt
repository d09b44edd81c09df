-- ===== src/Base.antt =====
-- The names that every component shares: the libraries', passed on, Boolean tests, byte strings,
-- lists with native lengths, bit operations and results of code that may throw.
mod Tests
mod Lists
mod Numbers
pub mod Bits
pub mod Text
pub mod Result
pub mod Search
pub mod OrderedMap
pub mod Digits
pub use Tests.*
pub use Lists.*
unfoldable pub use Numbers.*
pub use Prim.Native.Nat.{ℕ, zero, suc, ◌+◌, ◌-◌, ◌*◌, ◌/◌, ◌%◌, ◌^◌, ◌≤◌, ◌<◌, min, bit_and, bit_or}
pub use mathlib.Core.Path.{◌≡◌, refl, sym, ap, ap₂, ◌∙◌}
pub use mathlib.Core.Logic.{◌≢◌, ◌↔◌, ◌⊎◌, inl, inr}
pub use mathlib.Core.Bool.{Bool, true, false, not, ◌&&◌, ◌||◌}
pub use mathlib.Core.Option.{Option, none, some}
pub use mathlib.Core.List.{List, [], ◌∷◌, ◌++◌, map, append-nil, append_assoc}
pub use native.Mathlib.Omega.{arith}
