-- ===== src/Api.antt =====
-- The tree of src/api.rs. What `serde_json` writes for an answer is the parameter `json`.
use onedrive_davfs.Base.{
  ℕ, Bool, true, false, Option, none, some, List, [], ◌∷◌, ◌++◌, map, keep, Bytes, bytes_eq, codes,
  Result, ok, err, if◌then◌else◌,
}
use onedrive_davfs.Base.Effect.{Op, lift, pure, ◌>>=◌}
use onedrive_davfs.Base.Str.{is_empty, split, split_once}
use onedrive_davfs.Index.Paths.{normalize_path}
use onedrive_davfs.Xml.Percent.{pct_decode}
use onedrive_davfs.Guest.Path.{sanitize_path}
use onedrive_davfs.Snapshot.Child.{ChildInfo}
use onedrive_davfs.Snapshot.Lookup.{Lookup, file, dir}
use onedrive_davfs.Graph.Item.{GraphItem}
use onedrive_davfs.Graph.Request.{Env}
use onedrive_davfs.Graph.Read
use onedrive_davfs.Dav.Response.{DavResponse, respond, error, is_root_path, child_href}
use onedrive_davfs.Dav.Read.{Disk, hit_at}
mod Tests

-- An entry of a tree: the object of `child_json`.
pub record TreeChild : Type 0 where
  pub name : Bytes
  pub path : Bytes
  pub is_dir : Bool
  pub size : ℕ
  pub mtime : ℕ
  pub etag : Bytes

-- The object of `dir_json`, and of a file.
pub record Tree : Type 0 where
  pub path : Bytes
  pub name : Bytes
  pub is_dir : Bool
  pub size : ℕ
  pub mtime : ℕ
  pub etag : Bytes
  pub source : Bytes
  pub children : List TreeChild

-- `join_child_path` is the address of a child in a listing.
unfoldable pub join_child_path : Bytes → Bytes → Bytes
unfolding child_href
join_child_path parent name = child_href parent name

unfoldable pub child_json : Bytes → Bytes → Bool → ℕ → ℕ → Bytes → TreeChild
unfolding join_child_path
child_json parent name is_dir size mtime etag = record {
  name = name;
  path = join_child_path parent name;
  is_dir = is_dir;
  size = size;
  mtime = mtime;
  etag = etag;
}

-- The name of the root is left out.
unfoldable pub shown_name : Bytes → Bytes → Bytes
unfolding is_root_path
shown_name path name = if is_root_path path then [] else name

unfoldable pub info_json : Bytes → Bytes → ChildInfo → Bool → List TreeChild → Tree
unfolding normalize_path
info_json path name info is_dir children = record {
  path = normalize_path path;
  name = name;
  is_dir = is_dir;
  size = info.size;
  mtime = info.mtime;
  etag = info.etag;
  source = codes "index";
  children = children;
}

unfoldable pub kid_json : Bytes → ChildInfo → TreeChild
unfolding child_json
kid_json path c = child_json path c.name true c.size c.mtime c.etag

unfoldable pub lookup_to_tree : Bytes → Lookup → Tree
unfolding info_json shown_name kid_json
lookup_to_tree path (dir info children) =
    info_json path (shown_name path info.name) info true
      (map (kid_json path) (keep (λ c. c.is_dir) children))
lookup_to_tree path (file info) = info_json path info.name info false []

unfoldable pub item_json : Bytes → GraphItem → TreeChild
unfolding child_json
item_json path c = child_json path c.name true c.size c.last_modified c.etag

unfoldable pub graph_json : Bytes → GraphItem → List GraphItem → Tree
unfolding normalize_path shown_name item_json
graph_json path item items = record {
  path = normalize_path path;
  name = shown_name path item.name;
  is_dir = item.is_dir;
  size = item.size;
  mtime = item.last_modified;
  etag = item.etag;
  source = codes "graph";
  children = map (item_json path) (keep (λ c. c.is_dir) items);
}

-- The value of one `key=value`, percent-decoded where that gives text.
unfoldable pub param_value : Bytes → Option Bytes → Bytes
param_value v none = v
param_value v (some decoded) = decoded

unfoldable pub match_pair : Bytes → Option (Bytes × Bytes) → Option Bytes → Option Bytes
unfolding param_value pct_decode bytes_eq
match_pair key none rest = rest
match_pair key (some (k, v)) rest =
    if bytes_eq k key then some (param_value v (pct_decode v)) else rest

unfoldable pub param_in : Bytes → List Bytes → Option Bytes
unfolding match_pair split_once is_empty
param_in key [] = none
param_in key (pair ∷ pairs) =
    let rest = param_in key pairs in
    if is_empty pair then rest else match_pair key (split_once b'=' pair) rest

unfoldable pub query_param : Option Bytes → Bytes → Option Bytes
unfolding param_in split
query_param none key = none
query_param (some q) key = param_in key (split b'&' q)

unfoldable pub or_root : Option Bytes → Bytes
or_root none = codes "/"
or_root (some s) = s

module _ {W : Type 0} (env : Env W) (disk : Disk W) (json : Tree → Bytes) where
  unfoldable pub json_ok : Tree → DavResponse
  unfolding respond
  json_ok tree = respond 200 (codes "application/json") (json tree) none

  unfoldable pub listing : Bytes → GraphItem → Op W (List GraphItem)
  listing path item = if item.is_dir then Read.children env path else pure []

  unfoldable pub graph_tree : Bytes → Op W Tree
  unfolding listing graph_json
  graph_tree path = do
    item ← Read.stat env path
    items ← listing path item
    pure (graph_json path item items)

  unfoldable pub tree_reply : W × Result Bytes Tree → W × DavResponse
  unfolding json_ok error
  tree_reply (w, ok tree) = (w, json_ok tree)
  tree_reply (w, err e) =
      (w, if bytes_eq e (codes "not found") then error 404 (codes "not found") else error 502 e)

  unfoldable pub tree_at : Bytes → W → W × DavResponse
  unfolding tree_reply graph_tree json_ok lookup_to_tree hit_at
  tree_at path w = elim (hit_at env disk w path) [
    | some hit ↦ (w, json_ok (lookup_to_tree path hit))
    | none ↦ tree_reply (graph_tree path w)
  ]

  unfoldable pub checked_tree : Result Bytes Bytes → W → W × DavResponse
  unfolding tree_at error
  checked_tree (err e) w = (w, error 400 e)
  checked_tree (ok path) w = tree_at path w

  unfoldable pub tree : Option Bytes → W → W × DavResponse
  unfolding checked_tree query_param or_root sanitize_path
  tree query w = checked_tree (sanitize_path (or_root (query_param query (codes "path")))) w
