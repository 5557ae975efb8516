-- ===== src/Sync/Stored.antt =====
-- The snapshot files that `run_inner` of src/sync.rs uses, from the functions of src/snapshot.rs and
-- src/state_file.rs. A `load` that panics ends the run before anything is written, as an error does here.
use onedrive_davfs.Base.{
  ℕ, Bool, false, ◌&&◌, ◌||◌, ◌==◌, Option, none, some, Bytes, codes, Result, ok, err,
}
use onedrive_davfs.StateFile
use onedrive_davfs.Snapshot.Text.{Read}
use onedrive_davfs.Snapshot.Encode.{SnapshotMeta}
use onedrive_davfs.Snapshot.Files
use onedrive_davfs.Snapshot.Files.{plain_result, load, save, read_meta}
use onedrive_davfs.Sync.Crawl.{Target, rebuild_file, index_file}
use onedrive_davfs.Sync.Run.{Store}

unfoldable pub file_name : Target → Bytes
file_name rebuild_file = codes "index.rebuild.bin"
file_name index_file = Files.index_file

-- A snapshot that was written before its meta had totals and a time is written again.
unfoldable pub stale_meta : Read (Option SnapshotMeta) → Bool
stale_meta (ok (some meta)) = meta.built_at == 0 || (meta.total_dirs == 0 && meta.crawl_complete)
stale_meta (ok none) = false
stale_meta (err e) = false

-- An error ends the run, so the files that it leaves are not looked at again.
unfoldable pub written_to : {W A : Type 0} → W × Result Bytes A → Result Bytes W
written_to (w, ok a) = ok w
written_to (w, err e) = err e

unfoldable pub store_of :
    {W : Type 0}
    → StateFile.Dir W
    → ℕ
    → (Bytes → Result Bytes SnapshotMeta)
    → (SnapshotMeta → Result Bytes Bytes)
    → ℕ
    → Store W
unfolding plain_result load save read_meta stale_meta written_to file_name StateFile.rename
store_of dir rounds from_slice to_vec now = record {
  load = λ target w. plain_result (load dir rounds from_slice to_vec now (file_name target) w);
  save =
      λ target idx w. written_to (save dir rounds from_slice to_vec now (file_name target) idx w);
  rename_over =
      λ w. written_to (StateFile.rename dir (file_name rebuild_file) (file_name index_file) w);
  stale = λ w. stale_meta (read_meta dir rounds from_slice to_vec now w);
}
