-- ===== src/Snapshot/Lookup.antt =====
-- `find_dir`, `lookup_with` and `lookup_bytes` of src/snapshot.rs.
use Prim.Native.Nat.{Ordering}
use onedrive_davfs.Base.{
  ℕ, zero, suc, ◌+◌, ◌-◌, ◌/◌, ◌%◌, Bool, true, Option, none, some, List, [], Bytes, codes,
  bytes_eq, bytes_compare, ltb, length, get_elem?, ◌==◌, false, find, ok, err, ◌>>=◌, if◌then◌else◌,
}
use onedrive_davfs.Index.Paths.{normalize_path, parent_path, last_segment}
use onedrive_davfs.Snapshot.Text.{message, Read, usize_limit}
use onedrive_davfs.Snapshot.Child.{ChildInfo, parse_child_block}
use onedrive_davfs.Snapshot.Row.{DirRow, parse_dir_table}
use onedrive_davfs.Snapshot.Header.{header_len, parse_header}

-- The comparison of the row in the middle is `Greater`.
unfoldable pub above : Bytes → Option DirRow → Bool
unfolding bytes_compare
above path none = false
above path (some r) = elim (bytes_compare r.path path) [ Ordering.gt ↦ true | _ ↦ false ]

-- `while size > 1` of `binary_search_by` of the standard library: where the search ends. The size
-- falls in every round, so as many rounds as there are rows are enough.
unfoldable pub narrow : ℕ → List DirRow → Bytes → ℕ → ℕ → ℕ
unfolding above
narrow zero rows path base size = base
narrow (suc fuel) rows path base size =
    let half = size / 2 in
    let mid = base + half in
    let next = if above path (get_elem? rows mid) then base else mid in
    let rest = narrow fuel rows path next (size - half) in if ltb 1 size then rest else base

unfoldable pub found_row : Bytes → Option DirRow → Option DirRow
unfolding bytes_eq
found_row path none = none
found_row path (some r) = if bytes_eq r.path path then some r else none

unfoldable pub find_dir : List DirRow → Bytes → Option DirRow
unfolding narrow found_row
find_dir rows path =
    found_row path (get_elem? rows (narrow (length rows) rows path 0 (length rows)))

pub data Lookup : Type 0 where
  file : ChildInfo → Lookup
  dir : ChildInfo → List ChildInfo → Lookup

unfoldable pub info_of : DirRow → ChildInfo
unfolding last_segment
info_of row = record {
  name = last_segment row.path;
  is_dir = true;
  size = row.size;
  mtime = row.mtime;
  etag = row.etag;
  id = row.id;
}

unfoldable pub children_of : Read Bytes → Read (List ChildInfo)
unfolding parse_child_block
children_of read = do block ← read; parse_child_block block 0 (length block % usize_limit)

-- The path is the one of a directory.
unfoldable pub lookup_dir : DirRow → Read (List ChildInfo) → Read (Option Lookup)
unfolding info_of
lookup_dir row children = do cs ← children; ok (some (dir (info_of row) cs))

unfoldable pub as_file : Option ChildInfo → Option Lookup
as_file none = none
as_file (some c) = some (file c)

-- The path is a name in its parent, if its parent is there.
unfoldable pub lookup_name : Bytes → Option (Read (List ChildInfo)) → Read (Option Lookup)
unfolding as_file bytes_eq
lookup_name name none = ok none
lookup_name name (some children) = do
  cs ← children
  ok (as_file (find (λ c. bytes_eq c.name name) cs))

unfoldable pub block_at : (DirRow → Read Bytes) → Option DirRow → Option (Read (List ChildInfo))
unfolding children_of
block_at read_block none = none
block_at read_block (some row) = some (children_of (read_block row))

unfoldable pub lookup_normal : List DirRow → Bytes → (DirRow → Read Bytes) → Read (Option Lookup)
unfolding find_dir lookup_dir lookup_name block_at parent_path last_segment children_of
lookup_normal rows path read_block = elim (find_dir rows path) [
  | some row ↦ lookup_dir row (children_of (read_block row))
  | none ↦ lookup_name (last_segment path) (block_at read_block (find_dir rows (parent_path path)))
]

unfoldable pub lookup_with : List DirRow → Bytes → (DirRow → Read Bytes) → Read (Option Lookup)
unfolding lookup_normal normalize_path
lookup_with rows path read_block = lookup_normal rows (normalize_path path) read_block

-- `lookup_file`: `read_at off len` is what `state_file::read_at` gives for the index file.
module _ (read_at : ℕ → ℕ → Read (Option Bytes)) where
  unfoldable pub some_bytes : Bytes → Option Bytes → Read Bytes
  some_bytes missing none = err (message missing)
  some_bytes missing (some s) = ok s

  unfoldable pub read_block_at : DirRow → Read Bytes
  unfolding some_bytes
  read_block_at row = if row.block_len == 0 then ok [] else do
    block ← read_at row.block_off row.block_len
    some_bytes (codes "index child block missing") block

  unfoldable pub lookup_table : Bytes → Bytes → Read (Option Lookup)
  unfolding parse_header some_bytes parse_dir_table lookup_with read_block_at
  lookup_table path header =
      if ltb (length header) header_len then err (message (codes "index header truncated")) else do
        h ← parse_header header
        table ← read_at h.dir_table_off (h.meta_off - h.dir_table_off)
        bytes ← some_bytes (codes "index dir table missing") table
        rows ← parse_dir_table bytes h.dir_count
        lookup_with rows path read_block_at

  unfoldable pub with_header : Bytes → Option Bytes → Read (Option Lookup)
  unfolding lookup_table
  with_header path none = ok none
  with_header path (some header) = lookup_table path header

  unfoldable pub lookup_file : Bytes → Read (Option Lookup)
  unfolding with_header
  lookup_file path = do header ← read_at 0 header_len; with_header path header
