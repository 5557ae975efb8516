-- ===== src/Snapshot/FileRoundTrip.antt =====
-- A whole snapshot file, as `encode` puts it together and `decode` takes it apart (src/snapshot.rs).
use mathlib.Core.List.{foldl}
use onedrive_davfs.Base.{
  ℕ, ◌+◌, ◌-◌, ◌%◌, ◌^◌, ◌≤◌, ◌<◌, ◌≡◌, refl, sym, ap, ◌∙◌, subst, true, false, List, [], ◌++◌,
  Bytes, ltb, length, drop, take, Result, ok, ◌>>=◌, arith, All, length-append, append-nil,
  drop-append,
}
use onedrive_davfs.Base.Bits.{slice, le_bytes, drop-drop, slice-part}
use onedrive_davfs.Snapshot.Text.{usize_limit}
use onedrive_davfs.Snapshot.Row.{DirRow, write_dir_row, parse_dir_table}
use onedrive_davfs.Snapshot.RowRoundTrip.{
  RowFits, rows_onto, write_dir_rows-onto, parse_dir_table-write_dir_row,
}
use onedrive_davfs.Snapshot.Header.{Header, header_len, header_bytes, write_header, parse_header}
use onedrive_davfs.Snapshot.HeaderRoundTrip.{
  HeaderFits, length-write_header, parse_header-write_header,
}
use onedrive_davfs.Snapshot.Encode.{SnapshotMeta, finish}
use onedrive_davfs.Snapshot.Decode.{meta_result, parse_meta, table_slice}

-- The offsets that the file is to have.
abbrev pub layout : Bytes → List DirRow → Bytes → Header
layout blocks rows meta_bytes = record {
  dir_table_off = length blocks;
  dir_count = length rows;
  meta_off = length (foldl write_dir_row blocks rows);
  meta_len = length meta_bytes;
}

-- The header is written over the first 32 bytes only.
slice-write_header :
    (buf : Bytes) (h : Header) (start end : ℕ)
    → header_len ≤ start
    → slice start end (write_header buf h) ≡ slice start end buf
unfolding slice write_header header_bytes le_bytes
slice-write_header buf h start end le =
    let e : start ≡ 32 + (start - 32) = omega (arith, le) in
    let front : drop start (write_header buf h) ≡ drop start buf =
      subst (λ k. drop k (write_header buf h) ≡ drop k buf) (sym e)
        (drop-drop 32 (start - 32) (write_header buf h) ∙ sym (drop-drop 32 (start - 32) buf)) in
    ap (take (end - start)) front

module _ (blocks : Bytes) (rows : List DirRow) (meta_bytes : Bytes)
    (front : header_len ≤ length blocks) (few : length rows < 256 ^ 4)
    (small : length (foldl write_dir_row blocks rows ++ meta_bytes) < usize_limit) where
  grown : length blocks ≤ length (foldl write_dir_row blocks rows)
  grown =
      let whole = write_dir_rows-onto blocks rows in
      omega (arith, ap length whole, length-append blocks (rows_onto rows []))

  total :
      length (foldl write_dir_row blocks rows ++ meta_bytes)
      ≡ length (foldl write_dir_row blocks rows) + length meta_bytes
  total = length-append (foldl write_dir_row blocks rows) meta_bytes

  layout-HeaderFits : HeaderFits (layout blocks rows meta_bytes)
  layout-HeaderFits = record {
    dir_table_off = omega (arith, small, total, grown);
    dir_count = few;
    meta_off = omega (arith, small, total);
    meta_len = omega (arith, small, total);
  }

  finish-layout :
      finish (blocks, rows) meta_bytes
      ≡ write_header (foldl write_dir_row blocks rows ++ meta_bytes) (layout blocks rows meta_bytes)
  unfolding finish
  finish-layout =
      let n : length rows % 2 ^ 32 ≡ length rows = omega (arith, few) in
      let m : length meta_bytes % 2 ^ 32 ≡ length meta_bytes = omega (arith, small, total) in
      rw (n, m) refl

  length-file :
      length (
        write_header
          (foldl write_dir_row blocks rows ++ meta_bytes)
          (layout blocks rows meta_bytes))
      ≡ length (foldl write_dir_row blocks rows ++ meta_bytes)
  length-file =
      length-write_header (foldl write_dir_row blocks rows ++ meta_bytes)
        (layout blocks rows meta_bytes) (omega (arith, front, grown, total))

  table_part :
      table_slice
        (write_header
          (foldl write_dir_row blocks rows ++ meta_bytes)
          (layout blocks rows meta_bytes))
        (layout blocks rows meta_bytes)
      ≡ ok (
          slice
            (length blocks)
            (length (foldl write_dir_row blocks rows))
            (foldl write_dir_row blocks rows ++ meta_bytes))
  unfolding table_slice
  table_part =
      let buf = foldl write_dir_row blocks rows ++ meta_bytes in
      let h = layout blocks rows meta_bytes in
      let stop = length (foldl write_dir_row blocks rows) in
      let s : length blocks % usize_limit ≡ length blocks = omega (arith, small, total, grown) in
      let e : stop % usize_limit ≡ stop = omega (arith, small, total) in
      let order : ltb stop (length blocks) ≡ false = ground (arith, grown) in
      let far : ltb (length (write_header buf h)) stop ≡ false =
        ground (arith, length-file, total) in
      rw (s, e, order, far, slice-write_header buf h (length blocks) stop front) refl

  meta_part :
      (from_slice : Bytes → Result Bytes SnapshotMeta)
      → parse_meta from_slice
          (write_header
            (foldl write_dir_row blocks rows ++ meta_bytes)
            (layout blocks rows meta_bytes))
          (length (foldl write_dir_row blocks rows))
          (length meta_bytes)
        ≡ meta_result (from_slice meta_bytes)
  unfolding parse_meta
  meta_part from_slice =
      let table = foldl write_dir_row blocks rows in
      let h = layout blocks rows meta_bytes in
      let s : length table % usize_limit ≡ length table = omega (arith, small, total) in
      let fits : ltb (length table + length meta_bytes) usize_limit ≡ true =
        ground (arith, small, total) in
      let far : ltb (length (write_header (table ++ meta_bytes) h))
            (length table + length meta_bytes)
          ≡ false =
        ground (arith, length-file, total) in
      let there : drop (length table) (table ++ meta_bytes) ≡ meta_bytes ++ [] =
        drop-append table meta_bytes ∙ sym (append-nil meta_bytes) in
      let cut = slice-part (length table) (table ++ meta_bytes) meta_bytes [] there in
      let same =
        slice-write_header (table ++ meta_bytes) h (length table) (length table + length meta_bytes)
          (omega (arith, front, grown)) in
      rw (s, fits, far, same, cut) refl

  -- A file that is put together from the blocks, the rows and the meta text has a header that parses,
  -- with the place of each part; its directory table parses to the rows; and its meta text is read as it
  -- was written. The file is under 4 GiB, the blocks begin with the 32 bytes of the header, and the
  -- texts are UTF-8 and the numbers fit their fields.
  pub finish-reads :
      (from_slice : Bytes → Result Bytes SnapshotMeta)
      → All RowFits rows
      → (parse_header (finish (blocks, rows) meta_bytes) ≡ ok (layout blocks rows meta_bytes))
        × ((do
          table ← table_slice (finish (blocks, rows) meta_bytes) (layout blocks rows meta_bytes)
          parse_dir_table table (length rows))
            ≡ ok rows)
        × (parse_meta from_slice
              (finish (blocks, rows) meta_bytes)
              (length (foldl write_dir_row blocks rows))
              (length meta_bytes)
            ≡ meta_result (from_slice meta_bytes))
  finish-reads from_slice fits =
      let (head, _) =
        parse_header-write_header (foldl write_dir_row blocks rows ++ meta_bytes)
          (layout blocks rows meta_bytes) (omega (arith, front, grown, total)) layout-HeaderFits
          (omega (arith, grown, total)) (omega (arith, total)) in
      let back =
        parse_dir_table-write_dir_row blocks meta_bytes rows fits (omega (arith, small, total)) in
      rw finish-layout (head, rw table_part back, meta_part from_slice)
