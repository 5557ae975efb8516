-- ===== src/Dav/Write.antt =====
-- `put`, `mkcol`, `delete` and `move` of src/dav.rs, and `mutate` of src/snapshot.rs.
use onedrive_davfs.Base.{
  ℕ, Bool, true, false, Option, none, some, [], ◌++◌, Bytes, codes, ltb, length, Result, ok, err,
  if◌then◌else◌,
}
use onedrive_davfs.Base.Decimal.{decimal}
use onedrive_davfs.Base.Str.{split, last_or, trim_end_matches}
use onedrive_davfs.Index.State.{Index, ItemMeta, DeltaItem}
use onedrive_davfs.Index.Apply.{apply}
use onedrive_davfs.Index.Query.{resolve}
use onedrive_davfs.Index.Write.{upsert_at_path, remove_at_path, move_at_path}
use onedrive_davfs.Sync.Crawl.{is_some}
use onedrive_davfs.Graph.Request.{Env}
use onedrive_davfs.Graph.Upload
use onedrive_davfs.Graph.Upload.{max_upload_bytes}
use onedrive_davfs.Graph.Write
use onedrive_davfs.Dav.Response.{DavResponse, empty, error, parent_of}
use onedrive_davfs.Dav.Read.{Disk}

-- The item that Graph gave, if it stands at the path afterwards, else `local`.
unfoldable pub apply_or : (Index → Index × Bool) → Bytes → Index → Option DeltaItem → Index × Bool
unfolding apply resolve is_some
apply_or otherwise path idx none = otherwise idx
apply_or otherwise path idx (some it) =
    if is_some (resolve (apply idx it) path) then (apply idx it, true) else otherwise (apply idx it)

unfoldable pub apply_or_upsert : Index → Option DeltaItem → Bytes → ItemMeta → Index × Bool
unfolding apply_or upsert_at_path
apply_or_upsert idx item path meta = apply_or (λ i. upsert_at_path i path meta) path idx item

unfoldable pub apply_or_move : Index → Option DeltaItem → Bytes → Bytes → Index × Bool
unfolding apply_or move_at_path
apply_or_move idx item path destination =
    apply_or (λ i. move_at_path i path destination) destination idx item

unfoldable pub new_file : ℕ → ItemMeta
new_file size = record { is_dir = false; size = size; mtime = 0; etag = [] }

unfoldable pub new_folder : ItemMeta
new_folder = record { is_dir = true; size = 0; mtime = 0; etag = [] }

-- `path.trim_end_matches('/').rsplit('/').next()`.
unfoldable pub folder_name : Bytes → Bytes
unfolding split last_or trim_end_matches
folder_name path = last_or path (split b'/' (trim_end_matches b'/' path))

module _ {W : Type 0} (env : Env W) (disk : Disk W) where
  -- What the index becomes is saved when it changed.
  unfoldable pub save_changed : W → Index × Bool → W
  save_changed w (idx, true) = disk.save idx w
  save_changed w (idx, false) = w

  unfoldable pub mutate : (Index → Index × Bool) → W → W
  unfolding save_changed
  mutate f w = elim (disk.load w) [
    | err e ↦ w
    | ok none ↦ w
    | ok (some idx) ↦ save_changed w (f idx)
  ]

  unfoldable pub write_through : (Index → Index × Bool) → W → W
  unfolding mutate
  write_through f w = if disk.index_enabled then mutate f w else w

  -- A call of Graph, and what its success does to the index.
  unfoldable pub answered :
      {A : Type 0} → ℕ → (A → Index → Index × Bool) → W × Result Bytes A → W × DavResponse
  unfolding write_through empty error
  answered status f (w, ok a) = (write_through (f a) w, empty status)
  answered status f (w, err e) = (w, error 502 e)

  unfoldable pub put : Bytes → Bytes → W → W × DavResponse
  unfolding answered apply_or_upsert new_file error decimal
  put path body w =
      if ltb max_upload_bytes (length body)
      then (
        w,
        error 413 (
            codes "file is "
            ++ decimal (length body)
            ++ codes " bytes; this build only supports uploads up to 67108864 bytes"),
      )
      else answered 201 (λ item idx. apply_or_upsert idx item path (new_file (length body)))
          (Upload.put_content env path body w)

  unfoldable pub mkcol : Bytes → W → W × DavResponse
  unfolding answered apply_or_upsert new_folder parent_of folder_name
  mkcol path w =
      answered 201 (λ item idx. apply_or_upsert idx item path new_folder)
        (Write.create_folder env (parent_of path) (folder_name path) w)

  unfoldable pub delete : Bytes → W → W × DavResponse
  unfolding answered remove_at_path
  delete path w = answered 204 (λ done idx. remove_at_path idx path) (Write.delete env path w)

  unfoldable pub move : Bytes → Bytes → W → W × DavResponse
  unfolding answered apply_or_move
  move path destination w =
      answered 201 (λ item idx. apply_or_move idx item path destination)
        (Write.move_or_rename env path destination w)
