-- ===== src/Common.antt =====
-- The names that every other module shares: the libraries', passed on, with those of the children:
-- Boolean tests and lists over the native numbers, signed integers, and the floating-point interface.
mod Tests
mod Lists
mod Int
mod Float
mod Text
mod Number
mod Find
pub use Tests.*
pub use Lists.*
pub use Int.*
pub use Float.*
pub use Text.*
unfoldable pub use Text.{atoi}
pub use Number.*
pub use Find.*
pub use Prim.Native.Nat.{ℕ, zero, suc, ◌+◌, ◌-◌, ◌*◌, ◌/◌, ◌%◌, ◌^◌, ◌≤◌, ◌<◌}
pub use Prim.Native.String.{String}
pub use mathlib.Core.Path.{◌≡◌, refl, sym, ap, ◌∙◌, subst}
pub use mathlib.Core.Logic.{◌≢◌, ◌↔◌, ◌⊎◌, inl, inr}
pub use mathlib.Core.Bool.{Bool, true, false, not, ◌&&◌, ◌||◌}
pub use mathlib.Core.Option.{Option, none, some}
pub use mathlib.Core.List.{List, [], ◌∷◌, ◌++◌, map, append-nil}
pub use native.Mathlib.Omega.{arith}
pub use text.Mathlib.Text.{◌==◌ as str_eq}
pub use text.Mathlib.TextEquality.{eq_iff}
