-- ===== src/Base/Str.antt =====
-- The methods of `str` that the program uses, over byte lists.
mod Lemmas
mod Defs
unfoldable pub use Defs.{
  starts_with, strip_prefix, ends_with, cons_head, split, join, split_once, trim_start_matches,
  trim_end_matches, trim_matches, is_empty, last_or, ascii_lower, eq_ignore_ascii_case, contains,
  find_byte, rfind_byte, trim_start, trim_end, trim,
}
pub use Lemmas.*
