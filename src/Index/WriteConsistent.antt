-- ===== src/Index/WriteConsistent.antt =====
-- The write-through operations of src/index.rs keep the index consistent.
use mathlib.Core.Bool.{false≢true}
use onedrive_davfs.Base.{
  ◌≡◌, refl, sym, ap, ◌∙◌, Bool, true, false, Option, none, some, Option-cases, Bool-cases, Bytes,
  codes, bytes_eq, inl, inr, ◌++◌,
}
use onedrive_davfs.Base.Str.{is_empty}
use onedrive_davfs.Base.Map.Assoc
use onedrive_davfs.Index.State.{ItemId, ItemMeta, Node, Index}
use onedrive_davfs.Index.Paths.{parent_path, last_segment}
use onedrive_davfs.Index.Apply.{apply}
use onedrive_davfs.Index.Query.{resolve}
use onedrive_davfs.Index.Links.{IsConsistent}
use onedrive_davfs.Index.RemoveDeep.{remove-IsConsistent}
use onedrive_davfs.Index.ApplyConsistent.{apply-IsConsistent}
use onedrive_davfs.Index.Write.{
  local_item, create_at, set_meta, upsert_at_path, remove_at_path, move_node, move_at_path,
}

-- A node that is there, by the value of a lookup, with or without new metadata.
meta_forth :
    (meta : ItemMeta) (b : Bool) (o : Option Node) (p n : Bytes)
    → (node : Node) × (o ≡ some node) × (node.parent ≡ some p) × (node.name ≡ n)
    → (node : Node) × (Assoc.apply_at b (set_meta meta) o ≡ some node)
      × (node.parent ≡ some p)
      × (node.name ≡ n)
unfolding Assoc.apply_at set_meta
meta_forth meta b none p n (node, found, parent, name) = cc
meta_forth meta true (some old) p n (node, found, parent, name) =
    (set_meta meta node, ap (Assoc.apply_at true (set_meta meta)) found, parent, name)
meta_forth meta false (some old) p n (node, found, parent, name) = (node, found, parent, name)

meta_back :
    (meta : ItemMeta) (b : Bool) (o : Option Node) (p n : Bytes)
    → (node : Node) × (Assoc.apply_at b (set_meta meta) o ≡ some node)
      × (node.parent ≡ some p)
      × (node.name ≡ n)
    → (node : Node) × (o ≡ some node) × (node.parent ≡ some p) × (node.name ≡ n)
unfolding Assoc.apply_at set_meta
meta_back meta b none p n (node, found, parent, name) = cc
meta_back meta true (some old) p n (node, found, parent, name) =
    (old, refl, ap parent_of found ∙ parent, ap name_of found ∙ name)
  where
    parent_of : Option Node → Option ItemId
    parent_of none = none
    parent_of (some x) = x.parent

    name_of : Option Node → Bytes
    name_of none = n
    name_of (some x) = x.name
meta_back meta false (some old) p n (node, found, parent, name) = (node, found, parent, name)

set_meta-IsConsistent :
    (idx : Index) (id : ItemId) (meta : ItemMeta)
    → IsConsistent idx
    → IsConsistent (record idx { nodes = Assoc.modify id (set_meta meta) idx.nodes })
set_meta-IsConsistent idx id meta ok = record {
  linked = record {
    backed = λ p n c h.
        let g = Assoc.get-modify id c (set_meta meta) idx.nodes in
        let (node, found, parent, name) =
          meta_forth meta (bytes_eq id c) (Assoc.get c idx.nodes) p n (ok.linked.backed p n c h) in
        (node, g ∙ found, parent, name);
    unique = ok.linked.unique;
  };
  covered = λ c p n st.
      let (node, found, parent, name) = st in
      let g = Assoc.get-modify id c (set_meta meta) idx.nodes in
      ok.covered c p n (
        meta_back meta (bytes_eq id c) (Assoc.get c idx.nodes) p n
          (node, sym g ∙ found, parent, name));
}

local_item-IsConsistent :
    (idx : Index) (id pid : ItemId) (name : Bytes) (meta : ItemMeta)
    → IsConsistent idx
    → IsConsistent (apply idx (local_item id pid name meta))
unfolding local_item
local_item-IsConsistent idx id pid name meta ok =
    apply-IsConsistent idx (local_item id pid name meta) ok (λ r. absurd (false≢true r))

create_at-IsConsistent :
    (idx : Index) (path : Bytes) (meta : ItemMeta)
    → IsConsistent idx
    → IsConsistent (create_at idx path meta).0
unfolding create_at
create_at-IsConsistent idx path meta ok = elim (Bool-cases (is_empty (last_segment path))) [
  | inl y ↦ rw y ok
  | inr n ↦ elim (Option-cases (resolve idx (parent_path path))) [
    | inl e ↦ rw (n, e) ok
    | inr (pid, e) ↦
        rw (n, e)
          (local_item-IsConsistent idx (codes "local:" ++ path) pid (last_segment path) meta ok)
  ]
]

pub upsert_at_path-IsConsistent :
    (idx : Index) (path : Bytes) (meta : ItemMeta)
    → IsConsistent idx
    → IsConsistent (upsert_at_path idx path meta).0
unfolding upsert_at_path
upsert_at_path-IsConsistent idx path meta ok = elim (Option-cases (resolve idx path)) [
  | inl e ↦ rw (e, upsert_at_path) (create_at-IsConsistent idx path meta ok)
  | inr (id, e) ↦ elim (Option-cases (Assoc.get id idx.nodes)) [
    | inl g ↦ rw (e, upsert_at_path, g) (create_at-IsConsistent idx path meta ok)
    | inr (node, g) ↦ rw (e, upsert_at_path, g) (set_meta-IsConsistent idx id meta ok)
  ]
]

pub remove_at_path-IsConsistent :
    (idx : Index) (path : Bytes) → IsConsistent idx → IsConsistent (remove_at_path idx path).0
unfolding remove_at_path
remove_at_path-IsConsistent idx path ok = elim (Option-cases (resolve idx path)) [
  | inl e ↦ rw (e, remove_at_path) ok
  | inr (id, e) ↦ rw (e, remove_at_path) (remove-IsConsistent idx id ok)
]

move_node-IsConsistent :
    (idx : Index) (id : ItemId) (old : Node) (to : Bytes)
    → IsConsistent idx
    → IsConsistent (move_node idx id old to).0
unfolding move_node
move_node-IsConsistent idx id old to ok = elim (Bool-cases (is_empty (last_segment to))) [
  | inl y ↦ rw y ok
  | inr n ↦ elim (Option-cases (resolve idx (parent_path to))) [
    | inl e ↦ rw (n, e) ok
    | inr (pid, e) ↦ rw (n, e) (local_item-IsConsistent idx id pid (last_segment to) old.meta ok)
  ]
]

pub move_at_path-IsConsistent :
    (idx : Index) (path to : Bytes) → IsConsistent idx → IsConsistent (move_at_path idx path to).0
unfolding move_at_path
move_at_path-IsConsistent idx path to ok = elim (Option-cases (resolve idx path)) [
  | inl e ↦ rw (e, move_at_path) ok
  | inr (id, e) ↦ elim (Option-cases (Assoc.get id idx.nodes)) [
    | inl g ↦ rw (e, move_at_path, g) ok
    | inr (old, g) ↦ rw (e, move_at_path, g) (move_node-IsConsistent idx id old to ok)
  ]
]
