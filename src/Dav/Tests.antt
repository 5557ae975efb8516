-- ===== src/Dav/Tests.antt =====
-- Runs of the model of the WebDAV handlers, and their theorems at concrete inputs.
use onedrive_davfs.Base.{
  ℕ, ◌≡◌, ◌⊎◌, refl, sym, ap, ◌∙◌, Bool, true, false, Option, none, some, [], ◌∷◌, Bytes, codes,
  Result, ok, err, ok-injective, subst,
}
use mathlib.Core.Bool.{false≢true}
use mathlib.Core.Option.{some-injective}
use onedrive_davfs.Base.Effect.{Keeps, pure}
use onedrive_davfs.Index.State.{DeltaItem, default}
use onedrive_davfs.Index.Links.{IsConsistent}
use onedrive_davfs.Index.Feed.{default-IsConsistent}
use onedrive_davfs.Http.Message.{Method, split_url}
use onedrive_davfs.Http.Send.{Wire, send}
use onedrive_davfs.Graph.BearerSafe.{IsSafe}
use onedrive_davfs.Graph.Address.{item_url}
use onedrive_davfs.Graph.Item.{DriveItem}
use onedrive_davfs.Graph.Request.{Env, graph_request}
use onedrive_davfs.Graph.Upload
use onedrive_davfs.Graph.Write
use onedrive_davfs.Dav.Response.{parent_of}
use onedrive_davfs.Dav.Read.{Disk}
use onedrive_davfs.Dav.Saved.{disk_of}
use onedrive_davfs.StateFile.Tests.{Files, in_memory}
use onedrive_davfs.Base.Map.Assoc
use onedrive_davfs.Snapshot.Header.{write_header}
use onedrive_davfs.Snapshot.Encode.{SnapshotMeta, zeros, encode}
use onedrive_davfs.Snapshot.Files.{index_file}
use onedrive_davfs.Dav.Write.{folder_name, put, mkcol, delete, move}
use onedrive_davfs.Dav.WriteThrough.{NotRoot, IsSound, IsSaved, handlers-IsSaved}

abbrev meta : SnapshotMeta
meta = record {
  delta_token = none;
  pending_next_link = none;
  crawl_complete = false;
  generation = 0;
  built_at = 7;
  root_id = none;
  total_dirs = 0;
  total_files = 0;
}

abbrev bytes_of : Result Bytes Bytes → Bytes
bytes_of (ok s) = s
bytes_of (err e) = []

abbrev to_vec : SnapshotMeta → Result Bytes Bytes
to_vec m = ok (codes "{}")

-- Files with the snapshot of the empty index, in a directory in memory.
abbrev saved_files : Files
saved_files = (index_file, bytes_of (encode to_vec 7 default)) ∷ []

abbrev saved : Disk Files
saved = disk_of true in_memory 3 (λ s. ok meta) to_vec 7

saved_loads : saved.load saved_files ≡ ok (some default)
unfolding disk_of encode Assoc.get Assoc.keys write_header zeros
saved_loads = refl

abbrev note : DriveItem
note = record {
  id = codes "1";
  name = codes "a.txt";
  size = 5;
  folder = false;
  last_modified = none;
  etag = none;
  mime_type = some none;
  parent_reference = some (codes "r");
  deleted = false;
  root = false;
  removed = false;
}

abbrev status_of : Method → ℕ
status_of Method.patch = 200
status_of Method.delete = 204
status_of Method.get = 200
status_of Method.put = 201
status_of Method.post = 201

-- A host that answers every request with success.
abbrev answering : {W : Type 0} → Env W
answering = record {
  drive_base = codes "me/drive";
  bearer = pure (codes "Bearer t");
  handle = λ wire w. (w, ok (record { status = status_of wire.method; headers = []; body = [] }));
  drive_item = λ s. ok note;
  item_page = λ s. err (codes "no page");
  delta_page = λ s. err (codes "no page");
  error_code = λ s. none;
  upload_url = λ s. ok (codes "https://x.sharepoint.com/u");
  session_body = codes "{}";
  folder_body = λ name. name;
  move_body = λ name parent. name;
}

handle-Keeps :
    {W : Type 0} (P : W → Type 0) (m : Wire) → IsSafe m → Keeps P ((answering {W = W}).handle m)
handle-Keeps P w h = record { keep = λ _ p. p }

bearer-Keeps : {W : Type 0} (P : W → Type 0) → Keeps P (answering {W = W}).bearer
bearer-Keeps P = record { keep = λ _ p. p }

known-NotRoot :
    (r : Result Bytes (Option DeltaItem)) (it : DeltaItem)
    → r ≡ ok (some it)
    → it.is_root ≡ false
    → NotRoot r
known-NotRoot r it e f other q root =
    false≢true (sym f ∙ ap is_root_of (ok-injective (sym e ∙ q)) ∙ root)
  where
    is_root_of : Option DeltaItem → Bool
    is_root_of none = false
    is_root_of (some x) = x.is_root

abbrev noted : DeltaItem
noted = record {
  id = codes "1";
  parent_id = some (codes "r");
  name = codes "a.txt";
  deleted = false;
  is_root = false;
  meta = record { is_dir = false; size = 5; mtime = 0; etag = [] };
}

put_gives :
    (Upload.put_content answering (codes "/a.txt") (codes "hello") saved_files).1 ≡ ok (some noted)
unfolding Upload.put_content graph_request send split_url item_url
put_gives = refl

folder_gives :
    (Write.create_folder answering
      (parent_of (codes "/a.txt"))
      (folder_name (codes "/a.txt"))
      saved_files).1
    ≡ ok (some noted)
unfolding Write.create_folder graph_request send split_url item_url
folder_gives = refl

move_gives :
    (Write.move_or_rename answering (codes "/a.txt") (codes "/b") saved_files).1 ≡ ok (some noted)
unfolding Write.move_or_rename graph_request send split_url item_url
move_gives = refl

saved-IsSound : IsSound saved saved_files
saved-IsSound other e =
    subst IsConsistent (some-injective default other (ok-injective (sym saved_loads ∙ e)))
      default-IsConsistent

handlers-IsSaved_example :
    (((put answering saved (codes "/a.txt") (codes "hello") saved_files).0 ≡ saved_files)
      ⊎ IsSaved saved
          (Upload.put_content answering (codes "/a.txt") (codes "hello") saved_files).0
          (put answering saved (codes "/a.txt") (codes "hello") saved_files).0)
    × IsSaved saved
        (Write.create_folder answering
          (parent_of (codes "/a.txt"))
          (folder_name (codes "/a.txt"))
          saved_files).0
        (mkcol answering saved (codes "/a.txt") saved_files).0
    × IsSaved saved
        (Write.delete answering (codes "/a.txt") saved_files).0
        (delete answering saved (codes "/a.txt") saved_files).0
    × IsSaved saved
        (Write.move_or_rename answering (codes "/a.txt") (codes "/b") saved_files).0
        (move answering saved (codes "/a.txt") (codes "/b") saved_files).0
handlers-IsSaved_example =
    handlers-IsSaved answering saved (handle-Keeps (IsSound saved)) (bearer-Keeps (IsSound saved))
      (codes "/a.txt") (codes "/b") (codes "hello") saved_files
      (known-NotRoot _ noted put_gives refl) (known-NotRoot _ noted folder_gives refl)
      (known-NotRoot _ noted move_gives refl) saved-IsSound

abbrev Unchanged : Files → Type 0
Unchanged w = w ≡ saved_files
