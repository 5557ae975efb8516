-- ===== src/Snapshot/Child.antt =====
-- `ChildInfo`, `write_child` and `parse_child_block` of src/snapshot.rs.
use onedrive_davfs.Base.{
  ℕ, zero, suc, ◌+◌, ◌%◌, Bool, not, Option, none, some, List, [], ◌∷◌, ◌++◌, Bytes, codes, ltb,
  leb, ◌==◌, length, get_elem?, ok, err, ◌>>=◌, if◌then◌else◌,
}
use onedrive_davfs.Base.Bits.{le_bytes, slice}
use onedrive_davfs.Snapshot.Text.{
  message, panic, endless, Read, usize_limit, write_str, number, read_str,
}

pub record ChildInfo : Type 0 where
  pub name : Bytes
  pub is_dir : Bool
  pub size : ℕ
  pub mtime : ℕ
  pub etag : Bytes
  pub id : Bytes

unfoldable pub flag : Bool → ℕ
flag b = if b then 1 else 0

unfoldable pub write_child : Bytes → ChildInfo → Bytes
unfolding write_str flag le_bytes
write_child buf c =
    let named = write_str buf c.name in
    let numbered = ((named ++ flag c.is_dir ∷ []) ++ le_bytes 8 c.size) ++ le_bytes 8 c.mtime in
    write_str (write_str numbered c.etag) c.id

-- The rest of a child once its name and its flag are read: `pos` is behind the flag.
unfoldable pub child_tail : Bytes → Bytes → Bool → ℕ → Read (ChildInfo × ℕ)
child_tail bytes name is_dir pos =
    if ltb (length bytes) (pos + 16) then err (message (codes "truncated child numbers")) else do
      (etag, p) ← read_str bytes (pos + 8 + 8)
      (id, q) ← read_str bytes p
      ok (
        record {
          name = name;
          is_dir = is_dir;
          size = number 8 bytes pos;
          mtime = number 8 bytes (pos + 8);
          etag = etag;
          id = id;
        },
        q,
      )

unfoldable pub child_flag : Bytes → Bytes → ℕ → Option ℕ → Read (ChildInfo × ℕ)
unfolding child_tail
child_flag bytes name pos none = err (message (codes "truncated child flags"))
child_flag bytes name pos (some b) = child_tail bytes name (not (b == 0)) (pos + 1)

-- One round of the loop.
unfoldable pub parse_child : Bytes → ℕ → Read (ChildInfo × ℕ)
unfolding child_flag
parse_child bytes pos = do
  (name, p) ← read_str bytes pos
  child_flag bytes name p (get_elem? bytes p)

unfoldable pub parse_children : ℕ → Bytes → ℕ → Read (List ChildInfo)
unfolding parse_child
parse_children zero bytes pos = if leb (length bytes) pos then ok [] else err endless
parse_children (suc fuel) bytes pos =
    if leb (length bytes) pos
    then ok []
    else do (c, p) ← parse_child bytes pos; out ← parse_children fuel bytes p; ok (c ∷ out)

-- Every round reads a byte at least, so as many rounds as there are bytes are enough.
unfoldable pub parse_child_block : Bytes → ℕ → ℕ → Read (List ChildInfo)
unfolding parse_children slice
parse_child_block bytes off len =
    let start = off % usize_limit in
    let end = (start + len) % usize_limit in
    if ltb (length bytes) end
    then err (message (codes "child block out of range"))
    else if ltb end start
    then err panic
    else let block = slice start end bytes in parse_children (length block) block 0
