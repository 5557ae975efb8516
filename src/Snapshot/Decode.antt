-- ===== src/Snapshot/Decode.antt =====
-- `decode` of src/snapshot.rs. `from_slice` is `serde_json::from_slice` on the meta text, with the text
-- of its error.
use onedrive_davfs.Base.{
  ℕ, ◌+◌, ◌%◌, true, not, ◌||◌, Option, none, some, List, [], ◌∷◌, ◌++◌, Bytes, codes, bytes_eq,
  ltb, length, Result, ok, err, ◌>>=◌, if◌then◌else◌,
}
use onedrive_davfs.Base.Bits.{slice}
use onedrive_davfs.Base.Map.Assoc
use onedrive_davfs.Base.Map.Assoc.{HashMap}
use onedrive_davfs.Base.Map.PairSet
use onedrive_davfs.Base.Map.PairSet.{PairSet}
use onedrive_davfs.Index.State.{ItemId, Node, Index, default}
use onedrive_davfs.Index.Paths.{parent_path, last_segment}
use onedrive_davfs.Snapshot.Text.{message, panic, Read, usize_limit}
use onedrive_davfs.Snapshot.Child.{ChildInfo, parse_child_block}
use onedrive_davfs.Snapshot.Row.{DirRow, parse_dir_table}
use onedrive_davfs.Snapshot.Header.{Header, parse_header}
use onedrive_davfs.Snapshot.Encode.{SnapshotMeta}

unfoldable pub meta_result : Result Bytes SnapshotMeta → Read SnapshotMeta
meta_result (ok m) = ok m
meta_result (err e) = err (message (codes "index meta: " ++ e))

-- `checked_add` fails where a 32-bit sum overflows.
unfoldable pub parse_meta : (Bytes → Result Bytes SnapshotMeta) → Bytes → ℕ → ℕ → Read SnapshotMeta
unfolding meta_result slice
parse_meta from_slice bytes meta_off meta_len =
    let start = meta_off % usize_limit in
    let end = start + meta_len in
    if not (ltb end usize_limit)
    then err (message (codes "index meta overflow"))
    else if ltb (length bytes) end
    then err (message (codes "index meta truncated"))
    else meta_result (from_slice (slice start end bytes))

unfoldable pub child_node : ItemId → ChildInfo → Node
child_node id c = record {
  parent = some id;
  name = c.name;
  meta = record { is_dir = c.is_dir; size = c.size; mtime = c.mtime; etag = c.etag };
}

unfoldable pub add_children :
    ItemId → List ChildInfo → HashMap Node × PairSet → HashMap Node × PairSet
unfolding child_node
add_children id [] (nodes, set) = (nodes, set)
add_children id (c ∷ cs) (nodes, set) =
    add_children id cs
      (Assoc.insert c.id (child_node id c) nodes, PairSet.insert (c.name, c.id) set)

unfoldable pub dir_node : DirRow → Node
unfolding last_segment
dir_node row = record {
  parent = none;
  name = last_segment row.path;
  meta = record { is_dir = true; size = row.size; mtime = row.mtime; etag = row.etag };
}

unfoldable pub add_dir : Index → DirRow → List ChildInfo → Index
unfolding add_children dir_node
add_dir idx row children =
    let (nodes, set) =
      add_children row.id children (Assoc.insert row.id (dir_node row) idx.nodes, []) in
    record idx { nodes = nodes; kids = Assoc.insert row.id set idx.kids }

-- The first loop over the rows.
unfoldable pub add_dirs : Bytes → List DirRow → Index → Read Index
unfolding add_dir
add_dirs bytes [] idx = ok idx
add_dirs bytes (row ∷ rows) idx = do
  children ← parse_child_block bytes row.block_off row.block_len
  add_dirs bytes rows (add_dir idx row children)

unfoldable pub path_to_id : List DirRow → HashMap ItemId → HashMap ItemId
path_to_id [] m = m
path_to_id (row ∷ rows) m = path_to_id rows (Assoc.insert row.path row.id m)

unfoldable pub clear_root : Node → Node
clear_root n = record n { parent = none; name = [] }

unfoldable pub or_root : Option ItemId → ItemId → Option ItemId
or_root none id = some id
or_root (some r) id = some r

unfoldable pub set_parent : ItemId → Node → Node
set_parent pid n = record n { parent = some pid }

unfoldable pub link_to : Index → ItemId → Option ItemId → Index
unfolding set_parent
link_to idx id none = idx
link_to idx id (some pid) = record idx { nodes = Assoc.modify id (set_parent pid) idx.nodes }

-- The second loop over the rows: each directory gets its parent by the parent's path.
unfoldable pub link_row : HashMap ItemId → Index → DirRow → Index
unfolding clear_root or_root link_to bytes_eq parent_path
link_row ids idx row =
    if bytes_eq row.path (codes "/")
    then record idx {
      nodes = Assoc.modify row.id clear_root idx.nodes;
      root = or_root idx.root row.id;
    }
    else link_to idx row.id (Assoc.get (parent_path row.path) ids)

unfoldable pub link_rows : HashMap ItemId → List DirRow → Index → Index
unfolding link_row
link_rows ids [] idx = idx
link_rows ids (row ∷ rows) idx = link_rows ids rows (link_row ids idx row)

unfoldable pub start_index : SnapshotMeta → Index
start_index meta = record default {
  delta_token = meta.delta_token;
  pending_next_link = meta.pending_next_link;
  crawl_complete = meta.crawl_complete;
  generation = meta.generation;
  root = meta.root_id;
}

-- `&bytes[dir_table_off as usize..table_end]`: a panic if the bounds are out of order or too large.
unfoldable pub table_slice : Bytes → Header → Read Bytes
unfolding slice
table_slice bytes h =
    let start = h.dir_table_off % usize_limit in
    let end = h.meta_off % usize_limit in
    if ltb end start || ltb (length bytes) end then err panic else ok (slice start end bytes)

unfoldable pub decode : (Bytes → Result Bytes SnapshotMeta) → Bytes → Read Index
unfolding parse_meta table_slice add_dirs link_rows path_to_id start_index
decode from_slice bytes = do
  h ← parse_header bytes
  meta ← parse_meta from_slice bytes h.meta_off h.meta_len
  table ← table_slice bytes h
  rows ← parse_dir_table table h.dir_count
  idx ← add_dirs bytes rows (start_index meta)
  ok (link_rows (path_to_id rows []) rows idx)
