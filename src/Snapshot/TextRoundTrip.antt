-- ===== src/Snapshot/TextRoundTrip.antt =====
-- What `write_str` wrote, `read_str` reads back (src/snapshot.rs).
use onedrive_davfs.Base.{
  ℕ, ◌+◌, ◌%◌, ◌^◌, ◌≤◌, ◌<◌, ◌≡◌, refl, subst, true, false, ◌++◌, Bytes, ltb, length, drop, ok,
  arith,
}
use onedrive_davfs.Base.Utf8.{is_utf8, from_utf8}
use onedrive_davfs.Base.Bits.{
  le_bytes, length-le_bytes, from_le-le_bytes, drop-part, slice-part, part-bound,
}
use onedrive_davfs.Snapshot.Text.{usize_limit, number, text_of, read_text, read_str}

-- What stands from the position `pos` of `bytes` on.
pub record At (bytes : Bytes) (pos : ℕ) (rest : Bytes) : Type 0 where
  pub split : drop pos bytes ≡ rest
  pub within : pos ≤ length bytes

pub At-part :
    (bytes : Bytes) (pos : ℕ) (part rest : Bytes)
    → At bytes pos (part ++ rest)
    → At bytes (pos + length part) rest
At-part bytes pos part rest a = record {
  split = drop-part pos bytes part rest a.split;
  within = part-bound pos bytes part rest a.split a.within;
}

-- A number of `width` bytes comes back, and what is behind it stands `width` bytes further.
pub number-le_bytes :
    (bytes : Bytes) (pos width n : ℕ) (rest : Bytes)
    → At bytes pos (le_bytes width n ++ rest)
    → n < 256 ^ width
    → (number width bytes pos ≡ n) × At bytes (pos + width) rest
unfolding number
number-le_bytes bytes pos width n rest a h =
    let len = length-le_bytes width n in
    let same = slice-part pos bytes (le_bytes width n) rest a.split in
    let same' = rw len at same in
    (
      rw same' (from_le-le_bytes width n h),
      subst (λ w. At bytes (pos + w) rest) len (At-part bytes pos (le_bytes width n) rest a),
    )

read_text-part :
    (bytes s rest : Bytes) (start : ℕ)
    → At bytes start (s ++ rest)
    → is_utf8 s ≡ true
    → read_text bytes start (start + length s) ≡ ok (s, start + length s)
unfolding read_text text_of from_utf8
read_text-part bytes s rest start a valid =
    let le = (At-part bytes start s rest a).within in
    let far : ltb (length bytes) (start + length s) ≡ false = ground (arith, le) in
    let order : ltb (start + length s) start ≡ false = ground arith in
    rw (far, order, slice-part start bytes s rest a.split, valid) refl

-- A string behind its length is read, with the position behind it.
pub read_str-part :
    (bytes : Bytes) (pos : ℕ) (s rest : Bytes)
    → At bytes pos (le_bytes 4 (length s) ++ (s ++ rest))
    → length bytes < usize_limit
    → is_utf8 s ≡ true
    → (read_str bytes pos ≡ ok (s, pos + 4 + length s)) × At bytes (pos + 4 + length s) rest
unfolding read_str
read_str-part bytes pos s rest a small valid =
    let four = length-le_bytes 4 (length s) in
    let long = rw four at (At-part bytes pos (le_bytes 4 (length s)) (s ++ rest) a) in
    let b = At-part bytes (pos + 4) s rest long in
    let le = b.within in
    let n = (number-le_bytes bytes pos 4 (length s) (s ++ rest) a (omega (arith, small, le))).0 in
    let far : ltb (length bytes) (pos + 4) ≡ false = ground (arith, le) in
    let wrap : (pos + 4 + length s) % usize_limit ≡ pos + 4 + length s = omega (arith, small, le) in
    (rw (far, n, wrap) (read_text-part bytes s rest (pos + 4) long valid), b)
