-- ===== src/Snapshot/Files.antt =====
-- `load`, `save` and `read_meta` of src/snapshot.rs: `encode` and `decode` over the files of
-- src/state_file.rs. `to_vec` and `from_slice` are those of `serde_json`, and `now` is the clock. A
-- `save` that fails leaves what `write_atomic` left of the files.
use onedrive_davfs.Base.{
  ℕ, Option, none, some, Bytes, codes, ltb, length, Result, ok, err, ◌>>=◌, if◌then◌else◌,
}
use onedrive_davfs.Base.Effect.{Op}
use onedrive_davfs.StateFile
use onedrive_davfs.Index.State.{Index}
use onedrive_davfs.Snapshot.Text.{message, panic, endless, Read}
use onedrive_davfs.Snapshot.Header.{header_len, parse_header}
use onedrive_davfs.Snapshot.Encode.{SnapshotMeta, encode}
use onedrive_davfs.Snapshot.Decode.{decode, meta_result}

abbrev pub index_file : Bytes
index_file = codes "index.bin"

-- An error of a file operation is a message.
unfoldable pub file_result : {A : Type 0} → Result Bytes A → Read A
file_result (ok a) = ok a
file_result (err e) = err (message e)

-- What a caller is given. A panic has no value, so this stands for one.
unfoldable pub plain_result : {A : Type 0} → Read A → Result Bytes A
plain_result (ok a) = ok a
plain_result (err (message e)) = err e
plain_result (err panic) = err (codes "panic")
plain_result (err endless) = err (codes "no rounds left")

unfoldable pub decode_found :
    (Bytes → Result Bytes SnapshotMeta) → Option Bytes → Read (Option Index)
unfolding decode
decode_found from_slice none = ok none
decode_found from_slice (some bytes) = do idx ← decode from_slice bytes; ok (some idx)

-- `ok_or_else` on the bytes of a file.
unfoldable pub bytes_or : Bytes → Option Bytes → Read Bytes
bytes_or missing none = err (message missing)
bytes_or missing (some bytes) = ok bytes

module _ {W : Type 0} (dir : StateFile.Dir W) (rounds : ℕ)
    (from_slice : Bytes → Result Bytes SnapshotMeta) (to_vec : SnapshotMeta → Result Bytes Bytes)
    (now : ℕ) where
  unfoldable pub load : Bytes → W → Read (Option Index)
  unfolding file_result decode_found StateFile.read_file
  load name w = do
    found ← file_result (StateFile.read_file dir rounds name w)
    decode_found from_slice found

  unfoldable pub write_encoded : Bytes → Result Bytes Bytes → Op W (Unit {0})
  unfolding StateFile.write_atomic
  write_encoded name (err e) w = (w, err e)
  write_encoded name (ok bytes) w = StateFile.write_atomic dir name bytes w

  unfoldable pub save : Bytes → Index → Op W (Unit {0})
  unfolding write_encoded encode
  save name idx w = write_encoded name (encode to_vec now idx) w

  unfoldable pub meta_at : W → Bytes → Read (Option SnapshotMeta)
  unfolding parse_header bytes_or meta_result file_result StateFile.read_at
  meta_at w header =
      if ltb (length header) header_len then err (message (codes "index header truncated")) else do
        h ← parse_header header
        found ← file_result (StateFile.read_at dir index_file h.meta_off h.meta_len w)
        bytes ← bytes_or (codes "index meta missing") found
        meta ← meta_result (from_slice bytes)
        ok (some meta)

  unfoldable pub meta_found : W → Option Bytes → Read (Option SnapshotMeta)
  unfolding meta_at
  meta_found w none = ok none
  meta_found w (some header) = meta_at w header

  unfoldable pub read_meta : W → Read (Option SnapshotMeta)
  unfolding meta_found file_result StateFile.read_at
  read_meta w = do
    header ← file_result (StateFile.read_at dir index_file 0 header_len w)
    meta_found w header
