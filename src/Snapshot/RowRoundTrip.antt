-- ===== src/Snapshot/RowRoundTrip.antt =====
-- The directory table reads back as the rows that were written (src/snapshot.rs).
use mathlib.Core.List.{foldl}
use onedrive_davfs.Base.{
  ℕ, ◌+◌, ◌^◌, ◌<◌, ◌≡◌, refl, sym, ap, ◌∙◌, true, false, List, [], ◌∷◌, ◌++◌, Bytes, ltb, length,
  drop, ok, arith, All, append_assoc, append-nil, length-append, drop-append,
}
use onedrive_davfs.Base.Utf8.{is_utf8}
use onedrive_davfs.Base.Bits.{le_bytes, slice, slice-part}
use onedrive_davfs.Snapshot.Text.{usize_limit, write_str}
use onedrive_davfs.Snapshot.TextRoundTrip.{At, number-le_bytes, read_str-part}
use onedrive_davfs.Snapshot.ChildRoundTrip.{str_onto}
use onedrive_davfs.Snapshot.Row.{
  DirRow, write_dir_row, row_meta, row_block, parse_row, parse_rows, parse_dir_table,
}

-- The texts are UTF-8 and the numbers are those of a `u64` or a `u32`, as the types of the source have it.
pub record RowFits (r : DirRow) : Type 0 where
  pub path : is_utf8 r.path ≡ true
  pub id : is_utf8 r.id ≡ true
  pub etag : is_utf8 r.etag ≡ true
  pub block_off : r.block_off < 256 ^ 8
  pub block_len : r.block_len < 256 ^ 4
  pub size : r.size < 256 ^ 8
  pub mtime : r.mtime < 256 ^ 8

abbrev pub meta_onto : DirRow → Bytes → Bytes
meta_onto r rest = le_bytes 8 r.size ++ (le_bytes 8 r.mtime ++ str_onto r.etag rest)

abbrev pub block_onto : DirRow → Bytes → Bytes
block_onto r rest =
    le_bytes 8 r.block_off ++ (le_bytes 4 r.block_len ++ str_onto r.id (meta_onto r rest))

abbrev pub row_onto : DirRow → Bytes → Bytes
row_onto r rest = str_onto r.path (block_onto r rest)

abbrev pub rows_onto : List DirRow → Bytes → Bytes
rows_onto [] rest = rest
rows_onto (r ∷ rs) rest = row_onto r (rows_onto rs rest)

pub write_dir_row-onto :
    (buf : Bytes) (r : DirRow) (rest : Bytes) → write_dir_row buf r ++ rest ≡ buf ++ row_onto r rest
unfolding write_dir_row write_str
write_dir_row-onto buf r rest = simp append_assoc

pub write_dir_rows-onto :
    (buf : Bytes) (rs : List DirRow) → foldl write_dir_row buf rs ≡ buf ++ rows_onto rs []
write_dir_rows-onto buf [] = sym (append-nil buf)
write_dir_rows-onto buf (r ∷ rs) =
    write_dir_rows-onto (write_dir_row buf r) rs ∙ write_dir_row-onto buf r (rows_onto rs [])

module _ (bytes : Bytes) (small : length bytes < usize_limit) (r : DirRow) (fits : RowFits r) where
  row_meta-part :
      (pos : ℕ) (rest : Bytes)
      → At bytes pos (meta_onto r rest)
      → (q : ℕ) × (row_meta bytes r.path r.block_off r.block_len r.id pos ≡ ok (r, q))
        × At bytes q rest
  unfolding row_meta
  row_meta-part pos rest a =
      let (e1, a1) =
        number-le_bytes bytes pos 8 r.size (le_bytes 8 r.mtime ++ str_onto r.etag rest) a
          fits.size in
      let (e2, a2) =
        number-le_bytes bytes (pos + 8) 8 r.mtime (str_onto r.etag rest) a1 fits.mtime in
      let (e3, a3) = read_str-part bytes (pos + 8 + 8) r.etag rest a2 small fits.etag in
      let near : ltb (length bytes) (pos + 16) ≡ false = ground (arith, a2.within) in
      (pos + 8 + 8 + 4 + length r.etag, rw (near, e1, e2, e3) refl, a3)

  row_block-part :
      (pos : ℕ) (rest : Bytes)
      → At bytes pos (block_onto r rest)
      → (q : ℕ) × (row_block bytes r.path pos ≡ ok (r, q)) × At bytes q rest
  unfolding row_block
  row_block-part pos rest a =
      let (e1, a1) =
        number-le_bytes bytes pos 8 r.block_off
          (le_bytes 4 r.block_len ++ str_onto r.id (meta_onto r rest)) a fits.block_off in
      let (e2, a2) =
        number-le_bytes bytes (pos + 8) 4 r.block_len (str_onto r.id (meta_onto r rest)) a1
          fits.block_len in
      let (e3, a3) = read_str-part bytes (pos + 8 + 4) r.id (meta_onto r rest) a2 small fits.id in
      let (q, e4, a4) = row_meta-part (pos + 8 + 4 + 4 + length r.id) rest a3 in
      let near : ltb (length bytes) (pos + 12) ≡ false = ground (arith, a2.within) in
      (q, rw (near, e1, e2, e3) e4, a4)

  parse_row-part :
      (pos : ℕ) (rest : Bytes)
      → At bytes pos (row_onto r rest)
      → (q : ℕ) × (parse_row bytes pos ≡ ok (r, q)) × At bytes q rest
  unfolding parse_row
  parse_row-part pos rest a =
      let (e1, a1) = read_str-part bytes pos r.path (block_onto r rest) a small fits.path in
      let (q, e2, a2) = row_block-part (pos + 4 + length r.path) rest a1 in (q, rw e1 e2, a2)

parse_rows-part :
    (bytes : Bytes) (rs : List DirRow) (pos : ℕ)
    → At bytes pos (rows_onto rs [])
    → length bytes < usize_limit
    → All RowFits rs
    → parse_rows (length rs) bytes pos ≡ ok rs
unfolding parse_rows
parse_rows-part bytes [] pos a small h = refl
parse_rows-part bytes (r ∷ rs) pos a small (fits, h) =
    let (q, e, b) = parse_row-part bytes small r fits pos (rows_onto rs []) a in
    rw (e, parse_rows-part bytes rs q b small h) refl

-- The table, which stands in a file between the length of the buffer before the rows were written and
-- the length after, is parsed to the rows that were written, whatever the file holds before and behind
-- it, if the table is under 4 GiB, the texts are UTF-8 and the numbers fit their fields.
pub parse_dir_table-write_dir_row :
    (buf after : Bytes) (rs : List DirRow)
    → All RowFits rs
    → length (foldl write_dir_row buf rs) < usize_limit
    → parse_dir_table
        (slice
          (length buf)
          (length (foldl write_dir_row buf rs))
          (foldl write_dir_row buf rs ++ after))
        (length rs)
      ≡ ok rs
unfolding parse_dir_table
parse_dir_table-write_dir_row buf after rs fits small =
    let table = rows_onto rs [] in
    let whole = write_dir_rows-onto buf rs in
    let len : length (foldl write_dir_row buf rs) ≡ length buf + length table =
      ap length whole ∙ length-append buf table in
    let there : drop (length buf) (foldl write_dir_row buf rs ++ after) ≡ table ++ after =
      rw (whole, append_assoc buf table after) (drop-append buf (table ++ after)) in
    let cut = slice-part (length buf) (foldl write_dir_row buf rs ++ after) table after there in
    rw (len, cut)
      (parse_rows-part table rs 0 (record { split = refl; within = omega arith })
        (omega (arith, small, len)) fits)
