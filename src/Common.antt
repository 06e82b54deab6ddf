-- ===== src/Common.antt =====
-- Names that every module of the development shares: the libraries' names, passed on, and the
-- helpers of the children. No code of the repository is modelled here but the C++ casts, shifts and
-- `std::memcpy` that it is written with.
mod Tests
mod Lists
mod Words
mod Faults
pub mod Bits
pub mod Fields
pub mod Digits
pub mod Int
pub use Tests.*
pub use Lists.*
pub use Words.*
pub use Faults.*
pub use Prim.Native.Nat.{ℕ, zero, suc, ◌+◌, ◌-◌, ◌*◌, ◌/◌, ◌%◌, ◌^◌, ◌≤◌, ◌<◌, min, max}
pub use Prim.Native.Nat.{bit_and, bit_or}
pub use mathlib.Core.Path.{◌≡◌, refl, sym, ap, ◌∙◌, subst}
pub use mathlib.Core.Logic.{◌≢◌, ◌↔◌, ◌⊎◌, inl, inr}
pub use mathlib.Core.Bool.{Bool, true, false, not, ◌&&◌, ◌||◌}
pub use mathlib.Core.List.{List, [], ◌∷◌, ◌++◌, map, reverse}
pub use native.Mathlib.Omega.{arith}
