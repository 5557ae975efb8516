-- ===== src/Index/Remove.antt =====
-- `Index::remove`. The recursion over `kids` runs on fuel; every call but a leaf takes a key out of
-- `kids`, so one round more than there are keys is enough (Index/RemoveTotal).
use onedrive_davfs.Base.{
  ℕ, zero, suc, Bool, false, Option, none, some, [], ◌∷◌, bytes_eq, length, if◌then◌else◌,
}
use onedrive_davfs.Base.Map.Assoc
use onedrive_davfs.Base.Map.Assoc.{HashMap}
use onedrive_davfs.Base.Map.PairSet
use onedrive_davfs.Base.Map.PairSet.{PairSet}
use onedrive_davfs.Index.State.{ItemId, Node, Index}

-- `if let Some(set) = self.kids.get_mut(&pid) { set.remove(&(name, id)); }` for the node's parent.
unfoldable pub detach : Node → ItemId → HashMap PairSet → HashMap PairSet
detach node id kids = elim node.parent [
  | none ↦ kids
  | some pid ↦ Assoc.modify pid (PairSet.remove (node.name, id)) kids
]

unfoldable pub is_root_id : Option ItemId → ItemId → Bool
is_root_id none id = false
is_root_id (some r) id = bytes_eq r id

-- The first `if let`: the node, its root mark and its entry under its parent go.
unfoldable pub forget_node : Index → ItemId → Index
unfolding detach is_root_id
forget_node idx id = elim (Assoc.get id idx.nodes) [
  | none ↦ idx
  | some node ↦ record idx {
    nodes = Assoc.remove id idx.nodes;
    kids = detach node id idx.kids;
    root = if is_root_id idx.root id then none else idx.root;
  }
]

-- `for (_, cid) in children { self.remove(&cid); }`.
unfoldable pub remove_each : (Index → ItemId → Option Index) → PairSet → Index → Option Index
remove_each call [] idx = some idx
remove_each call ((name, cid) ∷ children) idx = elim (call idx cid) [
  | none ↦ none
  | some idx' ↦ remove_each call children idx'
]

-- `none` is no result of the program: the fuel ran out.
unfoldable pub remove_steps : ℕ → Index → ItemId → Option Index
remove_steps zero idx id = none
remove_steps (suc fuel) idx id =
    let idx' = forget_node idx id in
    elim (Assoc.get id idx'.kids) [
      | none ↦ some idx'
      | some children ↦
          remove_each (remove_steps fuel) children
            (record idx' { kids = Assoc.remove id idx'.kids })
    ]

unfoldable pub or_same : Index → Option Index → Index
or_same idx none = idx
or_same idx (some idx') = idx'

unfoldable pub remove : Index → ItemId → Index
unfolding remove_steps remove_each forget_node or_same
remove idx id = or_same idx (remove_steps (suc (length idx.kids)) idx id)
