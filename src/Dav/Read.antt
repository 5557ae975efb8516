-- ===== src/Dav/Read.antt =====
-- `propfind`, `get` and `head` of src/dav.rs.
use onedrive_davfs.Base.{
  Bool, true, false, not, ◌&&◌, Option, none, some, List, [], ◌∷◌, ◌++◌, map, Bytes, bytes_eq,
  codes, Result, ok, err, if◌then◌else◌,
}
use onedrive_davfs.Base.Str.{is_empty}
use onedrive_davfs.Index.State.{Index}
use onedrive_davfs.Snapshot.Child.{ChildInfo}
use onedrive_davfs.Snapshot.Lookup.{Lookup, file, dir}
use onedrive_davfs.Xml.Multistatus.{DavEntry, multistatus, newline}
use onedrive_davfs.Graph.Item.{GraphItem}
use onedrive_davfs.Graph.Request.{Env}
use onedrive_davfs.Graph.Read
use onedrive_davfs.Dav.Response.{
  DavResponse, respond, xml, empty, error, is_root_path, to_entry, entry_from_info, parent_of,
}

-- `config.index_enabled`, and the snapshot file: `snapshot::lookup_file`, `snapshot::load` and
-- `snapshot::save`, of which the result is not looked at.
pub record Disk (W : Type 0) : Type 0 where
  pub index_enabled : Bool
  pub lookup_file : W → Bytes → Result Bytes (Option Lookup)
  pub load : W → Result Bytes (Option Index)
  pub save : Index → W → W

unfoldable pub is_depth : Option Bytes → Bytes → Bool
unfolding bytes_eq
is_depth none value = false
is_depth (some depth) value = bytes_eq depth value

unfoldable pub hit_of : Result Bytes (Option Lookup) → Option Lookup
hit_of (ok hit) = hit
hit_of (err e) = none

unfoldable pub stat_error : Bytes → DavResponse
unfolding bytes_eq empty error
stat_error e = if bytes_eq e (codes "not found") then empty 404 else error 502 e

unfoldable pub infinite_depth : DavResponse
unfolding xml respond
infinite_depth = xml 403 (
    codes "<?xml version="
    ++ b'"' ∷ codes "1.0"
    ++ b'"' ∷ codes " encoding="
    ++ b'"' ∷ codes "utf-8"
    ++ b'"' ∷ codes "?>"
    ++ newline
    ++ codes "<D:error xmlns:D="
    ++ b'"' ∷ codes "DAV:"
    ++ b'"' ∷ codes "><D:propfind-finite-depth/></D:error>")

unfoldable pub listed : Bytes → ChildInfo → DavEntry
unfolding entry_from_info
listed path info = entry_from_info path info false

unfoldable pub hit_entries : Bytes → Option Bytes → Lookup → List DavEntry
unfolding entry_from_info listed is_depth
hit_entries path depth (file info) = entry_from_info path info true ∷ []
hit_entries path depth (dir info children) =
    entry_from_info path info true
    ∷ (if is_depth depth (codes "0") then [] else map (listed path) children)

module _ {W : Type 0} (env : Env W) (disk : Disk W) where
  unfoldable pub hit_at : W → Bytes → Option Lookup
  unfolding hit_of
  hit_at w path = if disk.index_enabled then hit_of (disk.lookup_file w path) else none

  unfoldable pub propfind_from_index : W → Bytes → Option Bytes → Option DavResponse
  unfolding hit_at hit_entries xml
  propfind_from_index w path depth = elim (hit_at w path) [
    | none ↦ none
    | some hit ↦ some (xml 207 (multistatus (hit_entries path depth hit)))
  ]

  -- Graph calls the root of the drive "root"; its address is "/".
  unfoldable pub self_entry : Bytes → GraphItem → DavEntry
  unfolding to_entry parent_of is_root_path
  self_entry path item =
      if is_root_path path
      then record (to_entry (parent_of path) item) { href = codes "/" }
      else to_entry (parent_of path) item

  unfoldable pub with_children :
      Bytes → GraphItem → W × Result Bytes (List GraphItem) → W × DavResponse
  unfolding self_entry to_entry xml error
  with_children path self (w, err e) = (w, error 502 e)
  with_children path self (w, ok items) =
      (w, xml 207 (multistatus (self_entry path self ∷ map (to_entry path) items)))

  unfoldable pub with_self : Bytes → Option Bytes → W × Result Bytes GraphItem → W × DavResponse
  unfolding with_children self_entry stat_error is_depth xml
  with_self path depth (w, err e) = (w, stat_error e)
  with_self path depth (w, ok self) =
      if self.is_dir && not (is_depth depth (codes "0"))
      then with_children path self (Read.children env path w)
      else (w, xml 207 (multistatus (self_entry path self ∷ [])))

  unfoldable pub propfind : Bytes → Option Bytes → W → W × DavResponse
  unfolding propfind_from_index with_self infinite_depth is_depth
  propfind path depth w =
      if is_depth depth (codes "infinity")
      then (w, infinite_depth)
      else elim (propfind_from_index w path depth) [
        | some answer ↦ (w, answer)
        | none ↦ with_self path depth (Read.stat env path w)
      ]

  unfoldable pub with_content : W × Result Bytes Bytes → W × DavResponse
  unfolding respond error
  with_content (w, ok bytes) = (w, respond 200 (codes "application/octet-stream") bytes none)
  with_content (w, err e) = (w, error 502 e)

  unfoldable pub get : Bytes → W → W × DavResponse
  unfolding with_content
  get path w = with_content (Read.get_content env path w)

  unfoldable pub type_of : GraphItem → Bytes
  unfolding is_empty
  type_of item =
      if item.is_dir
      then codes "httpd/unix-directory"
      else if is_empty item.mime_type
      then codes "application/octet-stream"
      else item.mime_type

  unfoldable pub with_head : W × Result Bytes GraphItem → W × DavResponse
  unfolding type_of respond stat_error
  with_head (w, err e) = (w, stat_error e)
  with_head (w, ok item) =
      (w, respond 200 (type_of item) [] (some (if item.is_dir then 0 else item.size)))

  unfoldable pub hit_head : Lookup → DavResponse
  unfolding respond
  hit_head (dir info children) = respond 200 (codes "httpd/unix-directory") [] (some 0)
  hit_head (file info) = respond 200 (codes "application/octet-stream") [] (some info.size)

  unfoldable pub head_from_index : W → Bytes → Option DavResponse
  unfolding hit_at hit_head
  head_from_index w path = elim (hit_at w path) [ none ↦ none | some hit ↦ some (hit_head hit) ]

  unfoldable pub head : Bytes → W → W × DavResponse
  unfolding head_from_index with_head
  head path w = elim (head_from_index w path) [
    | some answer ↦ (w, answer)
    | none ↦ with_head (Read.stat env path w)
  ]
