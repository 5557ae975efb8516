-- ===== src/Guest/Path.antt =====
-- `sanitize_path` of src/lib.rs.
use onedrive_davfs.Base.{
  ℕ, Bool, false, ◌||◌, List, [], ◌∷◌, Bytes, codes, bytes_eq, ltb, ◌==◌, Result, ok, err, ok_or,
  ◌>>=◌, if◌then◌else◌,
}
use onedrive_davfs.Base.Str.{split, is_empty}
use onedrive_davfs.Xml.Percent.{pct_decode}
use onedrive_davfs.Index.Paths.{slash, render}

unfoldable pub is_control : ℕ → Bool
is_control b = ltb b 0x20 || b == 0x7f

unfoldable pub has_control : Bytes → Bool
unfolding is_control
has_control [] = false
has_control (b ∷ s) = is_control b || has_control s

unfoldable pub push_segment : Bytes → Result Bytes (List Bytes) → Result Bytes (List Bytes)
push_segment s (ok segs) = ok (s ∷ segs)
push_segment s (err e) = err e

-- The loop over the parts. It ends at the first `..`, whatever follows.
unfoldable pub safe_segments : List Bytes → Result Bytes (List Bytes)
unfolding push_segment is_empty bytes_eq
safe_segments [] = ok []
safe_segments (seg ∷ segs) =
    let rest = safe_segments segs in
    if is_empty seg || bytes_eq seg (codes ".")
    then rest
    else if bytes_eq seg (codes "..")
    then err (codes "'..' segments are not allowed in paths")
    else push_segment seg rest

unfoldable pub sanitize_decoded : Bytes → Result Bytes Bytes
unfolding has_control safe_segments split render
sanitize_decoded decoded =
    if has_control decoded
    then err (codes "control characters are not allowed in paths")
    else do segs ← safe_segments (split slash decoded); ok (render segs)

unfoldable pub sanitize_path : Bytes → Result Bytes Bytes
unfolding sanitize_decoded pct_decode
sanitize_path raw = do
  decoded ← ok_or (codes "malformed percent-encoding in path") (pct_decode raw)
  sanitize_decoded decoded
