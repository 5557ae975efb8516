-- ===== src/Index/RemoveTotal.antt =====
-- The recursion of `Index::remove` (src/index.rs) ends.
use onedrive_davfs.Base.{
  ℕ, zero, suc, ◌≤◌, ◌<◌, ◌≡◌, refl, Option, some, Option-cases, [], ◌∷◌, length, arith, inl, inr,
}
use onedrive_davfs.Base.Map.Assoc
use onedrive_davfs.Base.Map.PairSet
use onedrive_davfs.Base.Map.PairSet.{PairSet}
use onedrive_davfs.Index.State.{ItemId, Node, Index}
use onedrive_davfs.Index.Remove.{detach, forget_node, remove_each, remove_steps, or_same, remove}

-- A call that returns, with no more keys in `kids` than before.
abbrev pub Returns : Index → Option Index → Type 0
Returns idx o = (r : Index) × (o ≡ some r) × (length r.kids ≤ length idx.kids)

length-detach :
    (node : Node) (id : ItemId) (kids : Assoc.HashMap PairSet)
    → length (detach node id kids) ≡ length kids
unfolding detach
length-detach node id kids = elim (Option-cases node.parent) [
  | inl e ↦ rw e
  | inr (pid, e) ↦ rw e (Assoc.length-modify pid (PairSet.remove (node.name, id)) kids)
]

pub length-forget_node :
    (idx : Index) (id : ItemId) → length (forget_node idx id).kids ≡ length idx.kids
unfolding forget_node
length-forget_node idx id = elim (Option-cases (Assoc.get id idx.nodes)) [
  | inl e ↦ rw (e, forget_node)
  | inr (node, e) ↦ rw (e, forget_node) (length-detach node id idx.kids)
]

remove_each-Returns :
    (call : Index → ItemId → Option Index) (n : ℕ)
    → ((idx : Index) (id : ItemId) → length idx.kids < n → Returns idx (call idx id))
    → (children : PairSet) (idx : Index) → length idx.kids < n
    → Returns idx (remove_each call children idx)
unfolding remove_each
remove_each-Returns call n h [] idx lt = (idx, refl, omega arith)
remove_each-Returns call n h ((name, cid) ∷ children) idx lt =
    let (r, e, le) = h idx cid lt in
    let (r', e', le') = remove_each-Returns call n h children r (omega arith) in
    (r', rw (e, remove_each) e', omega arith)

pub remove_steps-Returns :
    (fuel : ℕ) (idx : Index) (id : ItemId)
    → length idx.kids < fuel
    → Returns idx (remove_steps fuel idx id)
unfolding remove_steps
remove_steps-Returns zero idx id lt = absurd (omega arith)
remove_steps-Returns (suc fuel) idx id lt =
    let idx' = forget_node idx id in
    let same = length-forget_node idx id in
    elim (Option-cases (Assoc.get id idx'.kids)) [
      | inl e ↦ (idx', rw (e, remove_steps), omega arith)
      | inr (children, e) ↦
          let fewer = Assoc.length-remove-lt id idx'.kids e in
          let (r, returned, le) =
            remove_each-Returns (remove_steps fuel) fuel (remove_steps-Returns fuel) children
              (record idx' { kids = Assoc.remove id idx'.kids }) (omega arith) in
          (r, rw (e, remove_steps) returned, omega arith)
    ]

pub remove_returns :
    (idx : Index) (id : ItemId)
    → (remove_steps (suc (length idx.kids)) idx id ≡ some (remove idx id))
      × (length (remove idx id).kids ≤ length idx.kids)
unfolding remove or_same
remove_returns idx id =
    let (r, e, le) = remove_steps-Returns (suc (length idx.kids)) idx id (omega arith) in
    rw e (refl, le)
