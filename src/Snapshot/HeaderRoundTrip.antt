-- ===== src/Snapshot/HeaderRoundTrip.antt =====
-- The header reads back as it was written (src/snapshot.rs).
use onedrive_davfs.Base.{
  ◌%◌, ◌^◌, ◌≤◌, ◌<◌, ◌≡◌, refl, sym, subst, true, false, Bytes, ltb, length, ok, arith,
  length-drop, bytes_eq,
}
use onedrive_davfs.Base.Bits.{le_bytes, from_le, from_le-le_bytes, slice}
use onedrive_davfs.Snapshot.Text.{usize_limit, number}
use onedrive_davfs.Snapshot.Header.{
  Header, magic, version, header_len, header_bytes, write_header, offsets_of, out_of_range,
  parse_header,
}

-- The numbers are those of a `u64` or a `u32`.
pub record HeaderFits (h : Header) : Type 0 where
  pub dir_table_off : h.dir_table_off < 256 ^ 8
  pub dir_count : h.dir_count < 256 ^ 4
  pub meta_off : h.meta_off < 256 ^ 8
  pub meta_len : h.meta_len < 256 ^ 4

offsets-write_header :
    (buf : Bytes) (h : Header) → HeaderFits h → offsets_of (write_header buf h) ≡ h
unfolding offsets_of number slice write_header header_bytes le_bytes from_le
offsets-write_header buf h fits =
    rw
      (
        from_le-le_bytes 8 h.dir_table_off fits.dir_table_off,
        from_le-le_bytes 4 h.dir_count fits.dir_count,
        from_le-le_bytes 8 h.meta_off fits.meta_off,
        from_le-le_bytes 4 h.meta_len fits.meta_len,
      )
      refl

pub length-write_header :
    (buf : Bytes) (h : Header) → header_len ≤ length buf → length (write_header buf h) ≡ length buf
unfolding write_header header_bytes le_bytes
length-write_header buf h long = omega (arith, long, length-drop header_len buf)

marks-write_header :
    (buf : Bytes) (h : Header)
    → (bytes_eq (slice 0 4 (write_header buf h)) magic ≡ true)
      × (number 4 (write_header buf h) 4 ≡ version)
unfolding write_header header_bytes le_bytes number slice bytes_eq from_le
marks-write_header buf h = (refl, refl)

in_range :
    (bytes : Bytes) (h : Header)
    → h.dir_table_off ≤ length bytes
    → h.meta_off ≤ length bytes
    → out_of_range bytes h ≡ false
unfolding out_of_range
in_range bytes h table meta =
    let t : ltb (length bytes) (h.dir_table_off % usize_limit) ≡ false = ground (arith, table) in
    let m : ltb (length bytes) (h.meta_off % usize_limit) ≡ false = ground (arith, meta) in
    rw (t, m) refl

-- A header that was written over the first 32 bytes of a file is read back, if both offsets are within
-- the file and the file has those 32 bytes.
pub parse_header-write_header :
    (buf : Bytes) (h : Header)
    → header_len ≤ length buf
    → HeaderFits h
    → h.dir_table_off ≤ length buf
    → h.meta_off ≤ length buf
    → (parse_header (write_header buf h) ≡ ok h) × (length (write_header buf h) ≡ length buf)
unfolding parse_header
parse_header-write_header buf h long fits table meta =
    let len = length-write_header buf h long in
    let (mark, ver) = marks-write_header buf h in
    let offs = offsets-write_header buf h fits in
    let range =
      subst (λ x. out_of_range (write_header buf h) x ≡ false) (sym offs)
        (in_range (write_header buf h) h (omega (arith, len, table)) (omega (arith, len, meta))) in
    let short : ltb (length (write_header buf h)) header_len ≡ false = ground (arith, len, long) in
    (rw (short, mark, ver, range, offs) refl, len)
