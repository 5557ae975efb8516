-- ===== src/Sync/Tests.antt =====
-- A run of src/sync.rs on an empty directory, over a feed whose first page has a link to the next.
use onedrive_davfs.Base.{
  ◌≡◌, ◌≤◌, refl, true, false, Option, none, some, [], codes, Result, ok, err, Bytes,
}
use onedrive_davfs.Index.State.{Index, default}
use onedrive_davfs.Sync.Crawl.{Page, Crawl, index_file, rebuild_file}
use onedrive_davfs.Sync.Run.{Store, start, run_inner}
use onedrive_davfs.Sync.Resume.{IsResumable}
use onedrive_davfs.Sync.Stored.{store_of}
use onedrive_davfs.StateFile.Tests.{Files, in_memory}
use onedrive_davfs.Base.Map.Assoc
use onedrive_davfs.Snapshot.Header.{write_header}
use onedrive_davfs.Snapshot.Encode.{SnapshotMeta, zeros, encode}
use onedrive_davfs.Sync.Written.{IsWritten, run_inner-IsWritten}

abbrev meta : SnapshotMeta
meta = record {
  delta_token = none;
  pending_next_link = none;
  crawl_complete = false;
  generation = 0;
  built_at = 7;
  root_id = none;
  total_dirs = 0;
  total_files = 0;
}

-- The snapshot files of a directory in memory.
abbrev in_files : Store Files
in_files = store_of in_memory 3 (λ s. ok meta) (λ m. ok (codes "{}")) 7

abbrev files_of : Result Bytes Files → Files
files_of (ok w) = w
files_of (err e) = []

abbrev linked_page : Page
linked_page = record { items = []; next_link = some (codes "next"); delta_token = none }

abbrev after_one : Crawl
after_one = record {
  idx = record default { pending_next_link = some (codes "next") };
  url = codes "next";
  pages = 1;
  applied = 0;
  dirty = true;
  resynced = false;
  complete = false;
  target = index_file;
}

-- What the directory holds when the run has saved its index in it.
abbrev after_files : Files
after_files = files_of (in_files.save index_file after_one.idx [])

one_page :
    run_inner in_files (codes "first") 1000 (λ _. 0) (λ _ _. ok linked_page) 1 []
    ≡ ok (after_one, after_files)
unfolding run_inner store_of encode Assoc.get Assoc.keys write_header zeros Assoc.insert
one_page = refl

run_inner-IsWritten_example :
    (after_one.pages ≤ 1)
    × IsResumable (codes "first") after_one
    × ((live : Option Index) × (rebuild : Option Index) × (in_files.load index_file [] ≡ ok live)
        × (in_files.load rebuild_file [] ≡ ok rebuild)
        × IsWritten in_files
            (codes "first")
            (start (codes "first") (in_files.stale []) live rebuild)
            after_one
            []
            after_files)
run_inner-IsWritten_example =
    run_inner-IsWritten in_files (codes "first") 1000 (λ _. 0) (λ _ _. ok linked_page) 1 []
      after_files after_one one_page
