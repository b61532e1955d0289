-- ===== src/Base.antt =====
-- The names that the other modules share.
mod Tests
mod Results
mod Lists
mod Members
mod Slices
mod Bytes
pub mod Int
pub mod Words
pub mod Numbers
pub use Tests.*
pub use Results.*
pub use Lists.*
pub use Members.*
pub use Slices.*
unfoldable pub use Bytes.*
pub use Prim.Native.Nat.{ℕ, zero, suc, ◌+◌, ◌-◌, ◌*◌, ◌/◌, ◌%◌, ◌^◌, ◌≤◌, ◌<◌, min}
pub use mathlib.Core.Path.{◌≡◌, refl, sym, ap, ◌∙◌}
pub use mathlib.Core.Logic.{◌≢◌, ◌↔◌, ◌⊎◌, inl, inr}
pub use mathlib.Core.Bool.{Bool, true, false, not, ◌&&◌, ◌||◌}
pub use mathlib.Core.Option.{Option, none, some}
pub use mathlib.Core.List.{
  List, [], ◌∷◌, ◌++◌, map, reverse, append-nil, append_assoc, map-append, map-map, reverse-append,
}
pub use native.Mathlib.Omega.{arith}
