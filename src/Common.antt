-- ===== src/Common.antt =====
-- What the components share: Boolean tests and lists over the native numbers, maps from numbers
-- written one place at a time, and the unsigned 64-bit arithmetic of kernel/include/types.h.
mod Tests
mod Lists
mod Maps
mod Words
mod Int
pub use Tests.*
pub use Lists.*
pub use Maps.*
pub use Words.*
pub use Int.*
pub use Prim.Native.Nat.{ℕ, zero, suc, ◌+◌, ◌-◌, ◌*◌, ◌/◌, ◌%◌, ◌^◌, ◌≤◌, ◌<◌}
pub use mathlib.Core.Path.{◌≡◌, refl, sym, ap, subst, ◌∙◌, fun_ext}
pub use mathlib.Core.Logic.{◌≢◌, ◌↔◌, ◌⊎◌, inl, inr}
pub use mathlib.Core.Bool.{Bool, true, false, not, ◌&&◌, ◌||◌}
pub use mathlib.Core.Option.{Option, none, some}
pub use mathlib.Core.List.{List, [], ◌∷◌, ◌++◌}
pub use native.Mathlib.Omega.{arith}
