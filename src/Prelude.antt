-- ===== src/Prelude.antt =====
-- The names that the other modules share: the libraries', passed on, and those of the children:
-- Boolean tests and the conditional, lists over native numbers, signed integers and int64, text,
-- and results with explicit state.
mod Tests
mod Lists
pub mod Int
pub mod Text
pub mod Effects
pub mod Follows
unfoldable pub use Tests.{passes_under}
pub use Tests.*
pub use Lists.*
unfoldable pub use Int.{◌+ℤ◌, ◌-ℤ◌, ◌*ℤ◌, wrap64}
pub use Int.*
unfoldable pub use Text.{
  is_space, trim_left, trim_right, trim_space, lower_char, to_lower, contains, trim_prefix,
  drop_chars, count_chars, split_on, digit_char, itoa_fuel, itoa, format_int, quoted, digits_from,
  parse_digits, signed_in_range, parse_int, lookup, is_name_char, name_tail, name_pattern,
  cpu_pattern,
}
pub use Text.*
unfoldable pub use Effects.{error_text, attempt}
pub use Effects.*
pub use Prim.Native.Nat.{ℕ, zero, suc, ◌+◌, ◌-◌, ◌*◌, ◌/◌, ◌%◌, ◌^◌, ◌≤◌, ◌<◌}
pub use Prim.Native.Char.{Char, code}
pub use Prim.Native.String.{String, ◌++◌ as ◌+ₛ◌}
pub use mathlib.Core.Path.{◌≡◌, refl, sym, ap, ◌∙◌}
pub use mathlib.Core.Logic.{◌≢◌, ◌↔◌, ◌⊎◌, inl, inr}
pub use mathlib.Core.Bool.{Bool, true, false, not, ◌&&◌, ◌||◌}
pub use mathlib.Core.Option.{Option, none, some}
pub use mathlib.Core.List.{List, [], ◌∷◌, ◌++◌, map}
pub use native.Mathlib.Omega.{arith}
pub use text.Mathlib.Text.{starts_with}
pub use text.Mathlib.TextEquality.{eq_iff}
pub use text.Mathlib.TextPositions.{eq_refl, starts_with-append}
pub use text.Mathlib.TextLemmas.{append_assoc}
