-- ===== src/StateFile.antt =====
-- src/state_file.rs. The files of the state directory are those of the host, behind wasi:filesystem, so the
-- calls of a descriptor are parameters.
use onedrive_davfs.Base.Decimal.{decimal}
use onedrive_davfs.Base.{
  ◌^◌, ltb, ℕ, zero, suc, ◌+◌, Bool, true, false, not, ◌||◌, Option, none, some, List, [], ◌∷◌,
  ◌++◌, Bytes, codes, leb, ◌==◌, drop, length, min, ◌-◌, Result, ok, err, ◌>>=◌, if◌then◌else◌,
}
use onedrive_davfs.Base.Effect
use onedrive_davfs.Base.Effect.{Op, fail, pure}
use onedrive_davfs.Base.Str.{is_empty}
pub mod Atomic
pub mod Tests

-- `open_at` for reading, as whether it succeeds, `read` of an open file with a length and an offset,
-- `open_at` that creates or empties a file, `write` at an offset, `rename_at` and `unlink_file_at`.
pub record Dir (W : Type 0) : Type 0 where
  pub open_read : Bytes → W → Bool
  pub read : Bytes → ℕ → ℕ → W → Result Bytes (Bytes × Bool)
  pub open_write : Bytes → Op W (Unit {0})
  pub write : Bytes → Bytes → ℕ → Op W ℕ
  pub rename_at : Bytes → Bytes → Op W (Unit {0})
  pub unlink_file_at : Bytes → Op W (Unit {0})

abbrev pub read_size : ℕ
read_size = 65536

unfoldable pub failed : Bytes → Bytes → Bytes → Bytes
failed what name e = what ++ name ++ codes ": " ++ e

unfoldable pub tmp_name : Bytes → Bytes
tmp_name name = name ++ codes ".tmp"

module _ {W : Type 0} (dir : Dir W) where
  -- The loop of `read_file`. A file has an end, so a round more than it has bytes is enough.
  unfoldable pub read_steps : ℕ → Bytes → ℕ → Bytes → W → Result Bytes Bytes
  unfolding failed is_empty
  read_steps zero name offset contents w = err (codes "no rounds left")
  read_steps (suc rounds) name offset contents w = elim (dir.read name read_size offset w) [
    | err e ↦ err (failed (codes "failed reading ") name e)
    | ok (chunk, eof) ↦
        if eof || is_empty chunk
        then ok (contents ++ chunk)
        else read_steps rounds name (offset + length chunk) (contents ++ chunk) w
  ]

  unfoldable pub found : Result Bytes Bytes → Result Bytes (Option Bytes)
  found (ok contents) = ok (some contents)
  found (err e) = err e

  unfoldable pub read_file : ℕ → Bytes → W → Result Bytes (Option Bytes)
  unfolding read_steps found
  read_file rounds name w =
      if dir.open_read name w then found (read_steps rounds name 0 [] w) else ok none

  -- The loop of `write_file`. Every round writes a byte at least.
  unfoldable pub write_next : (ℕ → Op W (Unit {0})) → Bytes → ℕ → Op W (Unit {0})
  write_next rest name written =
      if written == 0 then fail (codes "short write to " ++ name) else rest written

  unfoldable pub write_steps : ℕ → Bytes → Bytes → ℕ → Op W (Unit {0})
  unfolding write_next
  write_steps zero name contents offset =
      if leb (length contents) offset then pure tt else fail (codes "no rounds left")
  write_steps (suc rounds) name contents offset =
      if leb (length contents) offset
      then pure tt
      else Effect.◌>>=◌ (dir.write name (drop offset contents) offset)
          (write_next (λ k. write_steps rounds name contents (offset + k)) name)

  unfoldable pub write_file : Bytes → Bytes → Op W (Unit {0})
  unfolding write_steps
  write_file name contents =
      Effect.◌>>=◌ (dir.open_write name) (λ _. write_steps (length contents) name contents 0)

  -- A rename that fails takes the new file away.
  unfoldable pub or_unlink :
      Bytes → Bytes → W × Result Bytes (Unit {0}) → W × Result Bytes (Unit {0})
  unfolding failed
  or_unlink tmp name (w, ok u) = (w, ok u)
  or_unlink tmp name (w, err e) = (
    (dir.unlink_file_at tmp w).0,
    err (failed (codes "failed renaming ") (tmp ++ codes " -> " ++ name) e),
  )

  unfoldable pub rename_over : Bytes → Op W (Unit {0})
  unfolding or_unlink tmp_name
  rename_over name w = or_unlink (tmp_name name) name (dir.rename_at (tmp_name name) name w)

  unfoldable pub write_atomic : Bytes → Bytes → Op W (Unit {0})
  unfolding write_file rename_over tmp_name
  write_atomic name contents =
      Effect.◌>>=◌ (write_file (tmp_name name) contents) (λ _. rename_over name)

  -- The loop of `read_at`: every round that goes on has read a byte, so `len` rounds are enough.
  unfoldable pub read_at_steps : ℕ → Bytes → ℕ → ℕ → Bytes → W → Result Bytes Bytes
  unfolding failed is_empty
  read_at_steps zero name pos end contents w =
      if ltb pos end then err (codes "no rounds left") else ok contents
  read_at_steps (suc rounds) name pos end contents w =
      if not (ltb pos end)
      then ok contents
      else elim (dir.read name (min (end - pos) read_size) pos w) [
        | err e ↦ err (failed (codes "failed reading ") (name ++ codes " at " ++ decimal pos) e)
        | ok (chunk, eof) ↦
            if eof || is_empty chunk
            then ok (contents ++ chunk)
            else read_at_steps rounds name (pos + length chunk) end (contents ++ chunk) w
      ]

  -- `saturating_add` stops at the largest `u64`.
  unfoldable pub read_at : Bytes → ℕ → ℕ → W → Result Bytes (Option Bytes)
  unfolding read_at_steps found
  read_at name offset len w =
      if dir.open_read name w
      then found (read_at_steps len name offset (min (offset + len) (2 ^ 64 - 1)) [] w)
      else ok none

  unfoldable pub rename : Bytes → Bytes → Op W (Unit {0})
  unfolding failed
  rename source target w = elim (dir.rename_at source target w).1 [
    | ok u ↦ ((dir.rename_at source target w).0, ok u)
    | err e ↦ (
      (dir.rename_at source target w).0,
      err (failed (codes "failed renaming ") (source ++ codes " -> " ++ target) e),
    )
  ]
