-- ===== src/Index/Write.antt =====
-- The write-through operations of src/index.rs, by path: `upsert_at_path`, `remove_at_path` and
-- `move_at_path`. Each returns the index and whether it was changed.
use onedrive_davfs.Base.{Bool, true, false, none, some, Bytes, codes, ◌++◌, if◌then◌else◌}
use onedrive_davfs.Base.Str.{is_empty}
use onedrive_davfs.Base.Map.Assoc
use onedrive_davfs.Index.State.{ItemId, ItemMeta, Node, Index, DeltaItem}
use onedrive_davfs.Index.Paths.{parent_path, last_segment}
use onedrive_davfs.Index.Remove.{remove}
use onedrive_davfs.Index.Apply.{apply}
use onedrive_davfs.Index.Query.{resolve}

unfoldable pub local_item : ItemId → ItemId → Bytes → ItemMeta → DeltaItem
local_item id pid name meta = record {
  id = id;
  parent_id = some pid;
  name = name;
  deleted = false;
  is_root = false;
  meta = meta;
}

-- The second half of `upsert_at_path`: a new node under the parent's path.
unfoldable pub create_at : Index → Bytes → ItemMeta → Index × Bool
unfolding local_item parent_path last_segment is_empty resolve apply
create_at idx path meta =
    if is_empty (last_segment path) then (idx, false) else elim (resolve idx (parent_path path)) [
      | none ↦ (idx, false)
      | some pid ↦
          (apply idx (local_item (codes "local:" ++ path) pid (last_segment path) meta), true)
    ]

unfoldable pub set_meta : ItemMeta → Node → Node
set_meta meta node = record node { meta = meta }

unfoldable pub upsert_at_path : Index → Bytes → ItemMeta → Index × Bool
unfolding create_at set_meta resolve
upsert_at_path idx path meta = elim (resolve idx path) [
  | none ↦ create_at idx path meta
  | some id ↦ elim (Assoc.get id idx.nodes) [
    | none ↦ create_at idx path meta
    | some node ↦ (record idx { nodes = Assoc.modify id (set_meta meta) idx.nodes }, true)
  ]
]

unfoldable pub remove_at_path : Index → Bytes → Index × Bool
unfolding resolve remove
remove_at_path idx path = elim (resolve idx path) [
  | none ↦ (idx, false)
  | some id ↦ (remove idx id, true)
]

unfoldable pub move_node : Index → ItemId → Node → Bytes → Index × Bool
unfolding local_item parent_path last_segment is_empty resolve apply
move_node idx id node to =
    if is_empty (last_segment to) then (idx, false) else elim (resolve idx (parent_path to)) [
      | none ↦ (idx, false)
      | some pid ↦ (apply idx (local_item id pid (last_segment to) node.meta), true)
    ]

unfoldable pub move_at_path : Index → Bytes → Bytes → Index × Bool
unfolding move_node resolve
move_at_path idx source to = elim (resolve idx source) [
  | none ↦ (idx, false)
  | some id ↦ elim (Assoc.get id idx.nodes) [
    | none ↦ (idx, false)
    | some node ↦ move_node idx id node to
  ]
]
