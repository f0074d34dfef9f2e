-- ===== src/Common.antt =====
-- What the components share: names of the libraries, tests on numbers, byte lists, machine words,
-- the process's way of aborting, and the interfaces of the libraries that the program calls.
mod Tests
mod Lists
mod Bits
mod Words
mod Aborts
mod Text
pub mod Evbuffer
pub use Tests.*
pub use Lists.*
pub use Bits.*
unfoldable pub use Bits.{under}
pub use Words.*
pub use Aborts.*
pub use Text.*
pub use Prim.Native.Nat.{ℕ, zero, suc, ◌+◌, ◌-◌, ◌*◌, ◌/◌, ◌%◌, ◌^◌, ◌≤◌, ◌<◌, bit_and, bit_or}
pub use mathlib.Core.Path.{◌≡◌, refl, sym, ap, ap₂, ◌∙◌, fun_ext}
pub use mathlib.Core.Logic.{◌≢◌, ◌↔◌, ◌⊎◌, inl, inr}
pub use mathlib.Core.Bool.{Bool, true, false, not, ◌&&◌, ◌||◌}
pub use mathlib.Core.Option.{Option, none, some}
pub use mathlib.Core.List.{List, [], ◌∷◌, ◌++◌, map, append-nil, append_assoc}
pub use native.Mathlib.Omega.{arith}
unfoldable pub use native.Mathlib.Decide.{dec_lt, ℕ_discrete}
