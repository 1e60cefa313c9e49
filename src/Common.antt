-- ===== src/Common.antt =====
-- Names that every part shares: the libraries' and those of the children, passed on.
mod Tests
mod Arrays
mod Bits
mod Bytes
mod Masks
pub mod Xor
mod Decimal
mod Outcome
mod Scan
mod Text
pub use Tests.*
pub use Arrays.*
pub use Bits.*
pub use Bytes.*
pub use Masks.*
pub use Decimal.*
pub use Outcome.*
pub use Scan.*
pub use Text.*
pub use Prim.Native.Nat.{ℕ, zero, suc, ◌+◌, ◌-◌, ◌*◌, ◌/◌, ◌%◌, ◌^◌, ◌≤◌, ◌<◌, bit_or, bit_and}
pub use mathlib.Core.Path.{◌≡◌, refl, sym, ap, ◌∙◌}
pub use mathlib.Core.Logic.{◌≢◌, ◌↔◌, ◌⊎◌, inl, inr}
pub use mathlib.Core.Bool.{Bool, true, false, ◌&&◌, ◌||◌}
pub use mathlib.Core.Option.{Option, none, some}
pub use mathlib.Core.List.{List, [], ◌∷◌, ◌++◌, map, append-nil, append_assoc}
pub use native.Mathlib.Omega.{arith}
