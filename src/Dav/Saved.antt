-- ===== src/Dav/Saved.antt =====
-- The snapshot file that the handlers of src/dav.rs use, from the functions of src/snapshot.rs. A `load` or
-- lookup that panics ends the request before anything is written. Here it is an error, which the
-- handlers take for an index that is not there: it leaves the files alone as well, but what the client is
-- answered then is not the program's.
use onedrive_davfs.Base.{ℕ, Bool, Bytes, Result}
use onedrive_davfs.StateFile
use onedrive_davfs.Snapshot.Lookup.{lookup_file}
use onedrive_davfs.Snapshot.Encode.{SnapshotMeta}
use onedrive_davfs.Snapshot.Files.{file_result, plain_result, index_file, load, save}
use onedrive_davfs.Dav.Read.{Disk}

-- `rounds` bounds the reads of a whole file.
unfoldable pub disk_of :
    {W : Type 0}
    → Bool
    → StateFile.Dir W
    → ℕ
    → (Bytes → Result Bytes SnapshotMeta)
    → (SnapshotMeta → Result Bytes Bytes)
    → ℕ
    → Disk W
unfolding plain_result file_result lookup_file load save StateFile.read_at
disk_of enabled dir rounds from_slice to_vec now = record {
  index_enabled = enabled;
  lookup_file = λ w path.
      plain_result
        (lookup_file (λ off len. file_result (StateFile.read_at dir index_file off len w)) path);
  load = λ w. plain_result (load dir rounds from_slice to_vec now index_file w);
  save = λ idx w. (save dir rounds from_slice to_vec now index_file idx w).0;
}
