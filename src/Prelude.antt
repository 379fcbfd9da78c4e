-- ===== src/Prelude.antt =====
-- Names that every module of the development shares: the libraries', passed on, and the children's.
mod Tests
mod Lists
mod Raises
mod ByteStrings
pub mod Bits
pub mod Actions
pub use Tests.*
pub use Lists.*
pub use Raises.*
unfoldable pub use ByteStrings.{bytes_eq}
pub use ByteStrings.{Bytes, bytes_eq_refl, bytes_eq→eq}
pub use Prim.Native.Nat.{
  ℕ, zero, suc, ◌+◌, ◌-◌, ◌*◌, ◌/◌, ◌%◌, ◌^◌, ◌≤◌, ◌<◌, min, max, bit_and, bit_or,
}
pub use Prim.Native.String.{String}
pub use mathlib.Core.Path.{◌≡◌, refl, sym, ap, ap₂, ◌∙◌, subst, subst₂}
pub use mathlib.Core.Logic.{◌≢◌, ◌↔◌, ◌⊎◌, inl, inr}
pub use mathlib.Core.Bool.{Bool, true, false, not, ◌&&◌, ◌||◌}
pub use mathlib.Core.Option.{Option, none, some}
pub use mathlib.Core.List.{List, [], ◌∷◌, ◌++◌, map, append-nil, append_assoc}
pub use native.Mathlib.Omega.{arith}
