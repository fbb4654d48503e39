-- ===== src/Base.antt =====
-- What the modules share: names of the libraries, Boolean tests, results, lists, words, texts and
-- ordered maps.
mod Test
mod Fallible
mod Lists
mod Words
mod Sums
pub mod Order
pub mod Text
pub mod Map
pub use Test.*
pub use Fallible.*
pub use Lists.*
pub use Words.*
pub use Sums.*
pub use Prim.Native.Nat.{ℕ, zero, suc, ◌+◌, ◌-◌, ◌*◌, ◌/◌, ◌%◌, ◌^◌, ◌≤◌, ◌<◌, min, max}
pub use mathlib.Core.Path.{◌≡◌, refl, sym, ap, ◌∙◌}
pub use mathlib.Core.Logic.{◌≢◌, ◌↔◌, ◌⊎◌, inl, inr}
pub use mathlib.Core.Bool.{Bool, true, false, not, ◌&&◌, ◌||◌}
pub use mathlib.Core.Option.{Option, none, some, some-injective}
pub use mathlib.Core.List.{List, [], ◌∷◌, ◌++◌, map}
pub use native.Mathlib.Omega.{arith}
