-- ===== src/Snapshot/Encode.antt =====
-- `encode` of src/snapshot.rs. `to_vec` is `serde_json::to_vec` on the meta record, with the text of its
-- error, and `now` is the clock.
use mathlib.Core.List.{foldl}
use Prim.Native.Nat.{Ordering}
use onedrive_davfs.Base.{
  ℕ, zero, suc, ◌+◌, ◌-◌, ◌%◌, ◌^◌, Bool, ◌||◌, Option, none, some, List, [], ◌∷◌, ◌++◌, Bytes,
  bytes_compare, length, Result, ok, ◌>>=◌, if◌then◌else◌,
}
use onedrive_davfs.Base.Map.Assoc
use onedrive_davfs.Base.Map.PairSet.{PairSet}
use onedrive_davfs.Index.State.{ItemId, Node, Index}
use onedrive_davfs.Index.Remove.{is_root_id}
use onedrive_davfs.Index.Query.{path_of}
use onedrive_davfs.Snapshot.Child.{ChildInfo, write_child}
use onedrive_davfs.Snapshot.Row.{DirRow, write_dir_row}
use onedrive_davfs.Snapshot.Header.{header_len, write_header}

pub record SnapshotMeta : Type 0 where
  pub delta_token : Option Bytes
  pub pending_next_link : Option Bytes
  pub crawl_complete : Bool
  pub generation : ℕ
  pub built_at : ℕ
  pub root_id : Option Bytes
  pub total_dirs : ℕ
  pub total_files : ℕ

-- `vec![0u8; n]`.
unfoldable pub zeros : ℕ → Bytes
zeros zero = []
zeros (suc n) = 0 ∷ zeros n

-- One element of `dirs`.
pub record DirEntry : Type 0 where
  pub id : ItemId
  pub path : Bytes
  pub node : Node

-- A node that has a path, if it is a directory or the root.
unfoldable pub dir_entry : Index → ItemId → Option Bytes → Option Node → Option DirEntry
unfolding is_root_id
dir_entry idx id none _ = none
dir_entry idx id (some path) none = none
dir_entry idx id (some path) (some node) =
    if node.meta.is_dir || is_root_id idx.root id
    then some (record { id = id; path = path; node = node })
    else none

unfoldable pub push_entry : Option DirEntry → List DirEntry → List DirEntry
push_entry none dirs = dirs
push_entry (some d) dirs = d ∷ dirs

unfoldable pub collect_dirs : Index → List ItemId → List DirEntry
unfolding dir_entry push_entry
collect_dirs idx [] = []
collect_dirs idx (id ∷ ids) =
    push_entry (dir_entry idx id (path_of idx id) (Assoc.get id idx.nodes)) (collect_dirs idx ids)

-- `dirs.sort_by(|a, b| a.1.cmp(&b.1))`, which is stable.
unfoldable pub insert_dir : DirEntry → List DirEntry → List DirEntry
unfolding bytes_compare
insert_dir d [] = d ∷ []
insert_dir d (e ∷ dirs) =
    let rest = insert_dir d dirs in
    elim (bytes_compare d.path e.path) [ Ordering.gt ↦ e ∷ rest | _ ↦ d ∷ e ∷ dirs ]

unfoldable pub sort_dirs : List DirEntry → List DirEntry
unfolding insert_dir
sort_dirs [] = []
sort_dirs (d ∷ dirs) = insert_dir d (sort_dirs dirs)

unfoldable pub child_info : Bytes → ItemId → Node → ChildInfo
child_info name cid child = record {
  name = name;
  is_dir = child.meta.is_dir;
  size = child.meta.size;
  mtime = child.meta.mtime;
  etag = child.meta.etag;
  id = cid;
}

unfoldable pub push_child : Bytes → ItemId → Option Node → List ChildInfo → List ChildInfo
unfolding child_info
push_child name cid none cs = cs
push_child name cid (some child) cs = child_info name cid child ∷ cs

-- The children of a directory that are nodes; an entry with no node is passed over.
unfoldable pub block_children : Index → PairSet → List ChildInfo
unfolding push_child
block_children idx [] = []
block_children idx ((name, cid) ∷ set) =
    push_child name cid (Assoc.get cid idx.nodes) (block_children idx set)

unfoldable pub children_in : Index → Option PairSet → List ChildInfo
unfolding block_children
children_in idx none = []
children_in idx (some set) = block_children idx set

-- One round of the loop over `dirs`: the block of the directory and its row.
unfoldable pub row_for : Bytes → Bytes → DirEntry → DirRow
row_for before after d = record {
  path = d.path;
  block_off = length before;
  block_len = (length after - length before) % 2 ^ 32;
  id = d.id;
  size = d.node.meta.size;
  mtime = d.node.meta.mtime;
  etag = d.node.meta.etag;
}

unfoldable pub write_blocks : Index → List DirEntry → Bytes → Bytes × List DirRow
unfolding children_in row_for
write_blocks idx [] body = (body, [])
write_blocks idx (d ∷ dirs) body =
    let after = foldl write_child body (children_in idx (Assoc.get d.id idx.kids)) in
    let (whole, rows) = write_blocks idx dirs after in (whole, row_for body after d ∷ rows)

unfoldable pub count_files : List ChildInfo → ℕ
count_files [] = 0
count_files (c ∷ cs) = (if c.is_dir then 0 else 1) + count_files cs

unfoldable pub total_files : Index → List DirEntry → ℕ
unfolding count_files children_in
total_files idx [] = 0
total_files idx (d ∷ dirs) =
    count_files (children_in idx (Assoc.get d.id idx.kids)) + total_files idx dirs

unfoldable pub meta_of : ℕ → Index → List DirEntry → SnapshotMeta
unfolding total_files
meta_of now idx dirs = record {
  delta_token = idx.delta_token;
  pending_next_link = idx.pending_next_link;
  crawl_complete = idx.crawl_complete;
  generation = idx.generation;
  built_at = now;
  root_id = idx.root;
  total_dirs = length dirs;
  total_files = total_files idx dirs;
}

-- The table, the meta text and the header, once the blocks are written.
unfoldable pub finish : Bytes × List DirRow → Bytes → Bytes
finish (blocks, rows) meta_bytes =
    let table = foldl write_dir_row blocks rows in
    write_header (table ++ meta_bytes) (record {
      dir_table_off = length blocks;
      dir_count = length rows % 2 ^ 32;
      meta_off = length table;
      meta_len = length meta_bytes % 2 ^ 32;
    })

unfoldable pub dirs_of : Index → List DirEntry
unfolding sort_dirs collect_dirs
dirs_of idx = sort_dirs (collect_dirs idx (Assoc.keys idx.nodes))

unfoldable pub encode : (SnapshotMeta → Result Bytes Bytes) → ℕ → Index → Result Bytes Bytes
unfolding finish write_blocks dirs_of meta_of
encode to_vec now idx =
    let dirs = dirs_of idx in
    do
      meta_bytes ← to_vec (meta_of now idx dirs)
      ok (finish (write_blocks idx dirs (zeros header_len)) meta_bytes)
