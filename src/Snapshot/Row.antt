-- ===== src/Snapshot/Row.antt =====
-- `DirRow`, `write_dir_row` and `parse_dir_table` of src/snapshot.rs.
use onedrive_davfs.Base.{
  ℕ, zero, suc, ◌+◌, List, [], ◌∷◌, ◌++◌, Bytes, codes, ltb, length, ok, err, ◌>>=◌, if◌then◌else◌,
}
use onedrive_davfs.Base.Bits.{le_bytes}
use onedrive_davfs.Snapshot.Text.{message, Read, write_str, number, read_str}

pub record DirRow : Type 0 where
  pub path : Bytes
  pub block_off : ℕ
  pub block_len : ℕ
  pub id : Bytes
  pub size : ℕ
  pub mtime : ℕ
  pub etag : Bytes

unfoldable pub write_dir_row : Bytes → DirRow → Bytes
unfolding write_str le_bytes
write_dir_row buf row =
    let located =
      (write_str buf row.path ++ le_bytes 8 row.block_off) ++ le_bytes 4 row.block_len in
    let numbered = (write_str located row.id ++ le_bytes 8 row.size) ++ le_bytes 8 row.mtime in
    write_str numbered row.etag

-- The size, the time and the tag of a row: `pos` is behind its id.
unfoldable pub row_meta : Bytes → Bytes → ℕ → ℕ → Bytes → ℕ → Read (DirRow × ℕ)
row_meta bytes path block_off block_len id pos =
    if ltb (length bytes) (pos + 16) then err (message (codes "truncated dir row meta")) else do
      (etag, q) ← read_str bytes (pos + 8 + 8)
      ok (
        record {
          path = path;
          block_off = block_off;
          block_len = block_len;
          id = id;
          size = number 8 bytes pos;
          mtime = number 8 bytes (pos + 8);
          etag = etag;
        },
        q,
      )

-- The place of the block and the id: `pos` is behind the path.
unfoldable pub row_block : Bytes → Bytes → ℕ → Read (DirRow × ℕ)
unfolding row_meta
row_block bytes path pos =
    if ltb (length bytes) (pos + 12) then err (message (codes "truncated dir row")) else do
      (id, q) ← read_str bytes (pos + 8 + 4)
      row_meta bytes path (number 8 bytes pos) (number 4 bytes (pos + 8)) id q

unfoldable pub parse_row : Bytes → ℕ → Read (DirRow × ℕ)
unfolding row_block
parse_row bytes pos = do (path, p) ← read_str bytes pos; row_block bytes path p

-- `for _ in 0..count`.
unfoldable pub parse_rows : ℕ → Bytes → ℕ → Read (List DirRow)
unfolding parse_row
parse_rows zero bytes pos = ok []
parse_rows (suc count) bytes pos = do
  (row, p) ← parse_row bytes pos
  rows ← parse_rows count bytes p
  ok (row ∷ rows)

unfoldable pub parse_dir_table : Bytes → ℕ → Read (List DirRow)
unfolding parse_rows
parse_dir_table bytes count = parse_rows count bytes 0
