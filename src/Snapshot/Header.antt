-- ===== src/Snapshot/Header.antt =====
-- `write_header` and `parse_header` of src/snapshot.rs.
use onedrive_davfs.Base.{
  ℕ, ◌%◌, Bool, not, ◌&&◌, ◌||◌, ◌++◌, Bytes, codes, bytes_eq, ltb, ◌==◌, length, drop, ok, err,
  if◌then◌else◌,
}
use onedrive_davfs.Base.Bits.{le_bytes, slice}
use onedrive_davfs.Base.Decimal.{decimal}
use onedrive_davfs.Snapshot.Text.{message, Read, usize_limit, number}

abbrev pub magic : Bytes
magic = codes "ODIX"

abbrev pub version : ℕ
version = 1

abbrev pub header_len : ℕ
header_len = 32

pub record Header : Type 0 where
  pub dir_table_off : ℕ
  pub dir_count : ℕ
  pub meta_off : ℕ
  pub meta_len : ℕ

unfoldable pub header_bytes : Header → Bytes
unfolding le_bytes
header_bytes h =
    magic
    ++ le_bytes 4 version
    ++ le_bytes 8 h.dir_table_off
    ++ le_bytes 4 h.dir_count
    ++ le_bytes 8 h.meta_off
    ++ le_bytes 4 h.meta_len

-- The first 32 bytes of a buffer that has them are overwritten.
unfoldable pub write_header : Bytes → Header → Bytes
unfolding header_bytes
write_header buf h = header_bytes h ++ drop header_len buf

unfoldable pub offsets_of : Bytes → Header
unfolding number
offsets_of bytes = record {
  dir_table_off = number 8 bytes 8;
  dir_count = number 4 bytes 16;
  meta_off = number 8 bytes 20;
  meta_len = number 4 bytes 28;
}

-- Both tests of the source, the outer one and the one for a whole file.
unfoldable pub out_of_range : Bytes → Header → Bool
out_of_range bytes h =
    let table_out = ltb (length bytes) (h.dir_table_off % usize_limit) in
    let meta_out = ltb (length bytes) (h.meta_off % usize_limit) in
    (table_out || meta_out) && not (length bytes == header_len) && (meta_out || table_out)

unfoldable pub parse_header : Bytes → Read Header
unfolding number slice bytes_eq offsets_of out_of_range decimal
parse_header bytes =
    if ltb (length bytes) header_len
    then err (message (codes "index header too short"))
    else if not (bytes_eq (slice 0 4 bytes) magic)
    then err (message (codes "index magic mismatch"))
    else if not (number 4 bytes 4 == version)
    then err (message (codes "unsupported index version " ++ decimal (number 4 bytes 4)))
    else if out_of_range bytes (offsets_of bytes)
    then err (message (codes "index offsets out of range"))
    else ok (offsets_of bytes)
