-- ===== src/Prelude.antt =====
-- The names that the other modules share: those of the libraries, passed on, and the helpers of
-- the child modules.
mod Tests
mod Lists
mod Effects
mod Text
mod Post
mod Int
mod Strings
mod Atoi
mod Newest
pub use Tests.*
pub use Lists.*
pub use Effects.*
unfoldable pub use Text.*
pub use Post.*
pub use Int.*
pub use Strings.*
pub use Newest.{Descending, newest_first-Perm, newest_first-Descending}
unfoldable pub use Newest.{newest_first}
pub use Atoi.{Scanned, bad_syntax, out_of_range, scanned, to_int64}
unfoldable pub use Atoi.{scan_digits, parse_uint, atoi}
pub use Prim.Native.Nat.{ℕ, zero, suc, ◌+◌, ◌-◌, ◌*◌, ◌/◌, ◌%◌, ◌^◌, ◌≤◌, ◌<◌, min}
pub use Prim.Native.Char.{Char, code}
pub use Prim.Native.String.{String}
pub use mathlib.Core.Path.{◌≡◌, refl, sym, ap, ◌∙◌, subst}
pub use mathlib.Core.Logic.{◌≢◌, ◌↔◌, ◌⊎◌, inl, inr}
pub use mathlib.Core.Bool.{Bool, true, false, not, ◌&&◌, ◌||◌}
pub use mathlib.Core.Option.{Option, none, some}
pub use mathlib.Core.List.{List, [], ◌∷◌, ◌++◌, Perm, map, append_assoc, append-nil}
pub use native.Mathlib.Omega.{arith}
pub use text.Mathlib.Text.{◌==◌ as str_eq}
pub use text.Mathlib.TextEquality.{eq_iff}
pub use text.Mathlib.TextPositions.{eq_refl}
