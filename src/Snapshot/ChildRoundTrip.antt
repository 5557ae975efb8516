-- ===== src/Snapshot/ChildRoundTrip.antt =====
-- The block of a directory reads back as the children that were written (src/snapshot.rs).
use mathlib.Core.List.{foldl}
use onedrive_davfs.Base.{
  ℕ, zero, suc, ◌+◌, ◌%◌, ◌^◌, ◌≤◌, ◌<◌, ◌≡◌, refl, sym, ap, ◌∙◌, Bool, true, false, not, some,
  List, [], ◌∷◌, ◌++◌, Bytes, ltb, leb, ◌==◌, length, drop, get_elem?, ok, arith, All, append_assoc,
  append-nil, length-append, length-drop, drop-append, ◌-◌,
}
use onedrive_davfs.Base.Utf8.{is_utf8}
use onedrive_davfs.Base.Bits.{le_bytes, slice-part}
use onedrive_davfs.Snapshot.Text.{usize_limit, write_str}
use onedrive_davfs.Snapshot.TextRoundTrip.{At, At-part, number-le_bytes, read_str-part}
use onedrive_davfs.Snapshot.Child.{
  ChildInfo, flag, write_child, child_tail, child_flag, parse_child, parse_children,
  parse_child_block,
}

-- The texts are UTF-8 and the numbers are those of a `u64`, as the types of the source have it.
pub record Fits (c : ChildInfo) : Type 0 where
  pub name : is_utf8 c.name ≡ true
  pub etag : is_utf8 c.etag ≡ true
  pub id : is_utf8 c.id ≡ true
  pub size : c.size < 256 ^ 8
  pub mtime : c.mtime < 256 ^ 8

abbrev pub str_onto : Bytes → Bytes → Bytes
str_onto s rest = le_bytes 4 (length s) ++ (s ++ rest)

abbrev pub child_onto : ChildInfo → Bytes → Bytes
child_onto c rest = str_onto c.name (
    flag c.is_dir
    ∷ (le_bytes 8 c.size ++ (le_bytes 8 c.mtime ++ str_onto c.etag (str_onto c.id rest))))

abbrev pub children_onto : List ChildInfo → Bytes → Bytes
children_onto [] rest = rest
children_onto (c ∷ cs) rest = child_onto c (children_onto cs rest)

pub write_child-onto :
    (buf : Bytes) (c : ChildInfo) (rest : Bytes)
    → write_child buf c ++ rest ≡ buf ++ child_onto c rest
unfolding write_child write_str
write_child-onto buf c rest = simp append_assoc

pub write_children-onto :
    (buf : Bytes) (cs : List ChildInfo) → foldl write_child buf cs ≡ buf ++ children_onto cs []
write_children-onto buf [] = sym (append-nil buf)
write_children-onto buf (c ∷ cs) =
    write_children-onto (write_child buf c) cs ∙ write_child-onto buf c (children_onto cs [])

get_elem?-drop :
    (bytes : Bytes) (pos b : ℕ) (rest : Bytes)
    → drop pos bytes ≡ b ∷ rest
    → get_elem? bytes pos ≡ some b
get_elem?-drop [] zero b rest h = cc
get_elem?-drop [] (suc pos) b rest h = cc
get_elem?-drop (c ∷ bytes) zero b rest h = cc
get_elem?-drop (c ∷ bytes) (suc pos) b rest h = get_elem?-drop bytes pos b rest h

head-At :
    (bytes : Bytes) (pos b : ℕ) (rest : Bytes)
    → At bytes pos (b ∷ rest)
    → (get_elem? bytes pos ≡ some b) × At bytes (pos + 1) rest
head-At bytes pos b rest a =
    (get_elem?-drop bytes pos b rest a.split, At-part bytes pos (b ∷ []) rest a)

flag_back : (b : Bool) → not (flag b == 0) ≡ b
unfolding flag
flag_back true = refl
flag_back false = refl

-- A child that stands at a position is read, with the position behind it.
parse_child-part :
    (bytes : Bytes) (pos : ℕ) (c : ChildInfo) (rest : Bytes)
    → At bytes pos (child_onto c rest)
    → length bytes < usize_limit
    → Fits c
    → (q : ℕ) × (parse_child bytes pos ≡ ok (c, q)) × At bytes q rest × (pos < q)
unfolding parse_child child_flag child_tail
parse_child-part bytes pos c rest a small fits =
    let numbers =
      le_bytes 8 c.size ++ (le_bytes 8 c.mtime ++ str_onto c.etag (str_onto c.id rest)) in
    let (e1, a1) = read_str-part bytes pos c.name (flag c.is_dir ∷ numbers) a small fits.name in
    let p1 = pos + 4 + length c.name in
    let (e2, a2) = head-At bytes p1 (flag c.is_dir) numbers a1 in
    let p2 = p1 + 1 in
    let (e3, a3) =
      number-le_bytes bytes p2 8 c.size (le_bytes 8 c.mtime ++ str_onto c.etag (str_onto c.id rest))
        a2 fits.size in
    let (e4, a4) =
      number-le_bytes bytes (p2 + 8) 8 c.mtime (str_onto c.etag (str_onto c.id rest)) a3
        fits.mtime in
    let (e5, a5) =
      read_str-part bytes (p2 + 8 + 8) c.etag (str_onto c.id rest) a4 small fits.etag in
    let p5 = p2 + 8 + 8 + 4 + length c.etag in
    let (e6, a6) = read_str-part bytes p5 c.id rest a5 small fits.id in
    let near : ltb (length bytes) (p2 + 16) ≡ false = ground (arith, a4.within) in
    (
      p5 + 4 + length c.id,
      rw (e1, e2, near, e3, e4, e5, e6, flag_back c.is_dir) refl,
      a6,
      omega arith,
    )

leb-At : (bytes : Bytes) (pos : ℕ) → At bytes pos [] → leb (length bytes) pos ≡ true
leb-At bytes pos a =
    let none_left : length bytes - pos ≡ 0 = sym (length-drop pos bytes) ∙ ap length a.split in
    ground (arith, none_left)

parse_children-part :
    (bytes : Bytes) (cs : List ChildInfo) (fuel pos : ℕ)
    → At bytes pos (children_onto cs [])
    → length bytes < usize_limit
    → All Fits cs
    → length bytes ≤ pos + fuel
    → parse_children fuel bytes pos ≡ ok cs
unfolding parse_children
parse_children-part bytes [] zero pos a small h enough = rw (leb-At bytes pos a) refl
parse_children-part bytes [] (suc fuel) pos a small h enough = rw (leb-At bytes pos a) refl
parse_children-part bytes (c ∷ cs) zero pos a small (fits, h) enough =
    let (q, e, b, lt) = parse_child-part bytes pos c (children_onto cs []) a small fits in
    absurd (omega (arith, enough, lt, b.within))
parse_children-part bytes (c ∷ cs) (suc fuel) pos a small (fits, h) enough =
    let (q, e, b, lt) = parse_child-part bytes pos c (children_onto cs []) a small fits in
    let ih = parse_children-part bytes cs fuel q b small h (omega (arith, enough, lt)) in
    let more : leb (length bytes) pos ≡ false = ground (arith, lt, b.within) in
    rw (more, e, ih) refl

-- The block of a directory, which stands in a file between the length of the buffer before its children
-- were written and the length after, is parsed to the children that were written, whatever the file
-- holds before and behind it, if the file is under 4 GiB, the texts are UTF-8 and the numbers fit 64 bits.
pub parse_child_block-write_child :
    (buf after : Bytes) (cs : List ChildInfo)
    → All Fits cs
    → length (foldl write_child buf cs ++ after) < usize_limit
    → parse_child_block
        (foldl write_child buf cs ++ after)
        (length buf)
        (length (foldl write_child buf cs) - length buf)
      ≡ ok cs
unfolding parse_child_block
parse_child_block-write_child buf after cs fits small =
    let block = children_onto cs [] in
    let whole = write_children-onto buf cs in
    let file = foldl write_child buf cs ++ after in
    let len : length (foldl write_child buf cs) ≡ length buf + length block =
      ap length whole ∙ length-append buf block in
    let total = length-append (foldl write_child buf cs) after in
    let start : length buf % usize_limit ≡ length buf = omega (arith, small, total, len) in
    let end : (length buf + (length (foldl write_child buf cs) - length buf)) % usize_limit
        ≡ length buf + length block =
      omega (arith, small, total, len) in
    let there : drop (length buf) file ≡ block ++ after =
      rw (whole, append_assoc buf block after) (drop-append buf (block ++ after)) in
    let far : ltb (length file) (length buf + length block) ≡ false = ground (arith, total, len) in
    let order : ltb (length buf + length block) (length buf) ≡ false = ground arith in
    let cut = slice-part (length buf) file block after there in
    rw (start, end, far, order, cut)
      (parse_children-part block cs (length block) 0 (record { split = refl; within = omega arith })
        (omega (arith, small, total, len)) fits (omega arith))
