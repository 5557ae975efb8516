-- ===== src/Snapshot/Text.antt =====
-- Strings and numbers in the snapshot file (src/snapshot.rs): `write_str` and `read_str`. The guest is
-- built for a 32-bit target, so a `usize` sum is taken modulo `2 ^ 32`, as a release build has it; an
-- index or a range that is out of bounds is a panic.
use onedrive_davfs.Base.{
  ℕ, ◌+◌, ◌%◌, ◌^◌, Option, none, some, ◌++◌, Bytes, codes, ltb, length, Result, ok, err,
  if◌then◌else◌,
}
use onedrive_davfs.Base.Utf8.{from_utf8}
use onedrive_davfs.Base.Bits.{le_bytes, from_le, slice}

-- Why a read gives no value: an error of the source, a panic, or a loop that the fuel did not end.
pub data Failure : Type 0 where
  message : Bytes → Failure
  panic : Failure
  endless : Failure

abbrev pub Read : Type 0 → Type 0
Read A = Result Failure A

abbrev pub usize_limit : ℕ
usize_limit = 2 ^ 32

unfoldable pub write_str : Bytes → Bytes → Bytes
unfolding le_bytes
write_str buf s = buf ++ le_bytes 4 (length s) ++ s

-- `uN::from_le_bytes(data[pos..pos + width].try_into().unwrap())`, behind a test of the bounds.
unfoldable pub number : ℕ → Bytes → ℕ → ℕ
unfolding from_le slice
number width bytes pos = from_le (slice pos (pos + width) bytes)

unfoldable pub text_of : ℕ → Option Bytes → Read (Bytes × ℕ)
text_of end none = err (message (codes "non-utf8 string"))
text_of end (some s) = ok (s, end)

unfoldable pub read_text : Bytes → ℕ → ℕ → Read (Bytes × ℕ)
unfolding text_of slice from_utf8
read_text bytes start end =
    if ltb (length bytes) end
    then err (message (codes "truncated string"))
    else if ltb end start
    then err panic
    else text_of end (from_utf8 (slice start end bytes))

-- The string at a position, with the position behind it.
unfoldable pub read_str : Bytes → ℕ → Read (Bytes × ℕ)
unfolding read_text number
read_str bytes pos =
    if ltb (length bytes) (pos + 4)
    then err (message (codes "truncated string length"))
    else read_text bytes (pos + 4) ((pos + 4 + number 4 bytes pos) % usize_limit)
