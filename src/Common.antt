-- ===== src/Common.antt =====
-- What the modules share: names of the libraries passed on, Boolean tests and lists over the native
-- numbers, bytes and C strings, and actions that may throw.
mod Numbers
mod Lists
mod Text
mod Equality
pub mod Exec
pub mod Options
pub use Text.*
unfoldable pub use Text.{c_string}
unfoldable pub use Equality.{eq_bytes}
pub use Equality.{eq_of_eq_bytes, eq_bytes_refl}
pub use Numbers.*
unfoldable pub use Numbers.{to_int}
pub use Lists.*
pub use Prim.Native.Nat.{ℕ, zero, suc, ◌+◌, ◌-◌, ◌*◌, ◌/◌, ◌%◌, ◌^◌, ◌≤◌, ◌<◌, min}
pub use Prim.Native.String.{String}
pub use mathlib.Core.Path.{◌≡◌, refl, sym, ap, ◌∙◌}
pub use mathlib.Core.Logic.{◌≢◌, ◌⊎◌, inl, inr}
pub use mathlib.Core.Bool.{Bool, true, false, not, ◌&&◌, ◌||◌}
pub use mathlib.Core.Option.{Option, none, some}
pub use mathlib.Core.List.{List, [], ◌∷◌, ◌++◌, map, append-nil, append_assoc, map-append}
pub use native.Mathlib.Omega.{arith}
