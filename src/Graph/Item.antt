-- ===== src/Graph/Item.antt =====
-- `DriveItem`, `GraphItem`, `to_item` and `to_delta_item` of src/graph.rs. Of a facet that is only
-- tested for its presence the model keeps whether it is there.
use onedrive_davfs.Base.{ℕ, Bool, ◌||◌, Option, none, some, List, [], ◌∷◌, Bytes, if◌then◌else◌}
use onedrive_davfs.Base.Str.{is_empty}
use onedrive_davfs.Index.State.{DeltaItem}
use onedrive_davfs.Graph.Time.{parse_iso8601_to_unix}

pub record DriveItem : Type 0 where
  pub id : Bytes
  pub name : Bytes
  pub size : ℕ
  pub folder : Bool
  pub last_modified : Option Bytes
  pub etag : Option Bytes
  -- `file`, and its `mimeType`.
  pub mime_type : Option (Option Bytes)
  -- `parentReference`, by its id.
  pub parent_reference : Option Bytes
  pub deleted : Bool
  pub root : Bool
  pub removed : Bool

pub record GraphItem : Type 0 where
  pub name : Bytes
  pub is_dir : Bool
  pub size : ℕ
  pub last_modified : ℕ
  pub etag : Bytes
  pub mime_type : Bytes

unfoldable pub or_empty : Option Bytes → Bytes
or_empty none = []
or_empty (some s) = s

unfoldable pub mime_of : Option (Option Bytes) → Bytes
unfolding or_empty
mime_of none = []
mime_of (some m) = or_empty m

unfoldable pub time_of : Option Bytes → ℕ
time_of none = 0
time_of (some s) = parse_iso8601_to_unix s

unfoldable pub to_item : DriveItem → GraphItem
unfolding time_of or_empty mime_of
to_item item = record {
  name = item.name;
  is_dir = item.folder;
  size = item.size;
  last_modified = time_of item.last_modified;
  etag = or_empty item.etag;
  mime_type = mime_of item.mime_type;
}

-- `.filter(|p| !p.id.is_empty()).map(|p| p.id.clone())`.
unfoldable pub parent_id_of : Option Bytes → Option Bytes
unfolding is_empty
parent_id_of none = none
parent_id_of (some id) = if is_empty id then none else some id

unfoldable pub to_delta_item : DriveItem → Option DeltaItem
unfolding parent_id_of time_of or_empty is_empty
to_delta_item item =
    if is_empty item.id
    then none
    else some (record {
      id = item.id;
      parent_id = parent_id_of item.parent_reference;
      name = item.name;
      deleted = item.deleted || item.removed;
      is_root = item.root;
      meta = record {
        is_dir = item.folder || item.root;
        size = item.size;
        mtime = time_of item.last_modified;
        etag = or_empty item.etag;
      };
    })

unfoldable pub delta_items : List DriveItem → List DeltaItem
unfolding to_delta_item
delta_items [] = []
delta_items (item ∷ items) =
    let rest = delta_items items in elim (to_delta_item item) [ none ↦ rest | some it ↦ it ∷ rest ]
