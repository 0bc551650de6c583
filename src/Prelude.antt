-- ===== src/Prelude.antt =====
-- The names that the other modules share: numbers, lists, options, results, signed integers, bytes.
mod Tests
mod Lists
mod Int
mod Results
mod ByteStrings
mod Wide
mod Utf8
pub use Tests.*
pub use Lists.*
pub use Int.*
unfoldable pub use Int.{◌+ℤ◌, ◌-ℤ◌}
pub use Results.*
pub use ByteStrings.*
pub use Wide.*
unfoldable pub use ByteStrings.{le_value, le_bytes}
unfoldable pub use Utf8.{is_utf8}
pub use Utf8.{is_utf8-head}
pub use Prim.Native.Nat.{ℕ, zero, suc, ◌+◌, ◌-◌, ◌*◌, ◌/◌, ◌%◌, ◌^◌, ◌≤◌, ◌<◌, min, max}
pub use Prim.Native.String.{String}
pub use mathlib.Core.Path.{◌≡◌, refl, sym, ap, ◌∙◌}
pub use mathlib.Core.Logic.{◌≢◌, ◌↔◌, ◌⊎◌, inl, inr}
pub use mathlib.Core.Bool.{Bool, true, false, not, ◌&&◌, ◌||◌}
pub use mathlib.Core.Option.{Option, none, some}
pub use mathlib.Core.List.{List, [], ◌∷◌, ◌++◌, map, append-nil, append_assoc}
pub use native.Mathlib.Omega.{arith}
