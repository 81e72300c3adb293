-- ===== src/Text.antt =====
-- The functions of Go's standard packages `strings` and `strconv` that the operator calls.
mod Words
pub mod Numbers
pub mod Order
mod Samples
unfoldable pub use Words.{
  char_eq, has_prefix, has_suffix, contains, split_on, is_space, fields, trim_space, trim_char,
  trim_left, join, to_lower, after_last, mem, NoRepeats, append,
}
pub use Numbers.{ℤ, pos, negsuc}
unfoldable pub use Numbers.{digit_value, digits_value, parse_int, itoa, digit_text}
