-- ===== src/Index/RemoveLinks.antt =====
-- What `Index::remove` (src/index.rs) keeps: the links between `kids` and `nodes`.
use onedrive_davfs.Base.{
  ℕ, zero, suc, ◌≡◌, ◌≢◌, sym, true, Option, none, some, Option-cases, [], ◌∷◌, Bytes, bytes_eq,
  bytes_eq_iff, arith, inl, inr, if◌then◌else◌, length,
}
use mathlib.Core.Option.{some-injective}
use onedrive_davfs.Base.{subst}
use onedrive_davfs.Base.Map.Assoc
use onedrive_davfs.Base.Map.PairSet
use onedrive_davfs.Base.Map.PairSet.{Pair, PairSet}
use onedrive_davfs.Index.State.{ItemId, Node, Index}
use onedrive_davfs.Index.Remove.{forget_node, remove_each, remove_steps, remove}
use onedrive_davfs.Index.RemoveTotal.{remove_returns}
use onedrive_davfs.Index.Links.{has, Stands, IsLinked, has-remove, has-detach, is_root_id_self}

pub none-ne-some : {r : Index} → ◌≢◌ {A = Option Index} none (some r)
none-ne-some e = cc

abbrev pub drop_kids : Index → ItemId → Index
drop_kids idx id = record idx { kids = Assoc.remove id idx.kids }

-- What the two writes of a call keep, the whole recursion keeps.
module _ {ℓ} (P : Index → Type ℓ)
    (forget : (idx : Index) (id : ItemId) → P idx → P (forget_node idx id))
    (prune : (idx : Index) (id : ItemId) → P idx → P (drop_kids idx id)) where
  each_keeps :
      (call : Index → ItemId → Option Index)
      → ((idx r : Index) (id : ItemId) → P idx → call idx id ≡ some r → P r)
      → (children : PairSet) (idx r : Index) → P idx
      → remove_each call children idx ≡ some r
      → P r
  unfolding remove_each
  each_keeps call h [] idx r p e = subst P (some-injective idx r e) p
  each_keeps call h ((name, cid) ∷ children) idx r p e = elim (Option-cases (call idx cid)) [
    | inl missing ↦ absurd (none-ne-some (rw (missing, remove_each) at e))
    | inr (idx', found) ↦
        each_keeps call h children idx' r (h idx idx' cid p found) (rw (found, remove_each) at e)
  ]

  one_call :
      (fuel : ℕ)
      → ((idx r : Index) (id : ItemId) → P idx → remove_steps fuel idx id ≡ some r → P r)
      → (idx r : Index) (id : ItemId) → P (forget_node idx id)
      → remove_steps (suc fuel) idx id ≡ some r
      → P r
  unfolding remove_steps
  one_call fuel h idx r id p e =
      let idx' = forget_node idx id in
      elim (Option-cases (Assoc.get id idx'.kids)) [
        | inl missing ↦ subst P (some-injective idx' r (rw (missing, remove_steps) at e)) p
        | inr (children, found) ↦
            each_keeps (remove_steps fuel) h children (drop_kids idx' id) r (prune idx' id p)
              (rw (found, remove_steps) at e)
      ]

  steps_keep :
      (fuel : ℕ) (idx r : Index) (id : ItemId) → P idx → remove_steps fuel idx id ≡ some r → P r
  steps_keep zero idx r id p e = absurd (none-ne-some {r = r} (unfold remove_steps in e))
  steps_keep (suc fuel) idx r id p e =
      one_call fuel (λ i j c. steps_keep fuel i j c) idx r id (forget idx id p) e

  -- What holds once the node itself is forgotten holds at the end.
  pub remove_after : (idx : Index) (id : ItemId) → P (forget_node idx id) → P (remove idx id)
  remove_after idx id p =
      one_call (length idx.kids) (steps_keep (length idx.kids)) idx (remove idx id) id p
        (remove_returns idx id).0

  pub remove_keeps : (idx : Index) (id : ItemId) → P idx → P (remove idx id)
  remove_keeps idx id p = remove_after idx id (forget idx id p)

-- `remove` only takes entries and nodes away.
pub has-forget_node :
    (idx : Index) (id p : ItemId) (q : Pair)
    → has (forget_node idx id).kids p q ≡ true
    → has idx.kids p q ≡ true
unfolding forget_node
has-forget_node idx id p q h = elim (Option-cases (Assoc.get id idx.nodes)) [
  | inl e ↦ rw (e, forget_node) at h
  | inr (node, e) ↦
      let h' = rw (e, forget_node) at h in ground (arith, has-detach node id p q idx.kids, h')
]

pub get-forget_node :
    (idx : Index) (id c : ItemId)
    → Assoc.get c (forget_node idx id).nodes
      ≡ (if bytes_eq id c then none else Assoc.get c idx.nodes)
unfolding forget_node
get-forget_node idx id c = elim (Option-cases (Assoc.get id idx.nodes)) [
  | inl e ↦ rw (e, forget_node) (ground (arith, bytes_eq_iff id c))
  | inr (node, e) ↦ rw (e, forget_node) (Assoc.get-remove id c idx.nodes)
]

pub has-remove_id :
    (idx : Index) (id p : ItemId) (q : Pair)
    → has (remove idx id).kids p q ≡ true
    → has idx.kids p q ≡ true
has-remove_id idx id p q =
    remove_keeps (λ r. has r.kids p q ≡ true → has idx.kids p q ≡ true)
      (λ r c h e. h (has-forget_node r c p q e))
      (λ r c h e. h (ground (arith, has-remove c p q r.kids))) idx id (λ e. e)

-- A node of the result was there before, and is not the removed one.
pub get-remove_id :
    (idx : Index) (id c : ItemId) (node : Node)
    → Assoc.get c (remove idx id).nodes ≡ some node
    → Assoc.get c idx.nodes ≡ some node
get-remove_id idx id c node =
    remove_keeps (λ r. Assoc.get c r.nodes ≡ some node → Assoc.get c idx.nodes ≡ some node)
      (λ r i h e. h (ground (arith, get-forget_node r i c))) (λ r i h e. h e) idx id (λ e. e)

-- The removed node is gone.
pub get-remove_self : (idx : Index) (id : ItemId) → Assoc.get id (remove idx id).nodes ≡ none
get-remove_self idx id =
    remove_after (λ r. Assoc.get id r.nodes ≡ none)
      (λ r i h. ground (arith, get-forget_node r i id)) (λ r i h. h) idx id
      (ground (arith, get-forget_node idx id id, bytes_eq_iff id id))

-- Under the links that hold before, no entry of the forgotten node is left.
own_entry :
    (idx : Index) (id p n : Bytes)
    → IsLinked idx
    → ¬ (has (forget_node idx id).kids p (n, id) ≡ true)
unfolding forget_node
own_entry idx id p n linked h =
    let (node, found, parent, name) = linked.backed p n id (has-forget_node idx id p (n, id) h) in
    let left = rw (found, forget_node) at h in
    ground (
      arith,
      left,
      has-detach node id p (n, id) idx.kids,
      is_root_id_self p,
      parent,
      name,
      PairSet.pair_eq_iff (n, id) (n, id),
    )

pub backed-forget_node :
    (idx : Index) (id p n c : Bytes)
    → IsLinked idx
    → has (forget_node idx id).kids p (n, c) ≡ true
    → Stands (forget_node idx id).nodes c p n
backed-forget_node idx id p n c linked h =
    let (node, found, parent, name) = linked.backed p n c (has-forget_node idx id p (n, c) h) in
    let other = λ (e : id ≡ c).
      own_entry idx id p n linked
        (subst (λ x. has (forget_node idx id).kids p (n, x) ≡ true) (sym e) h) in
    (node, ground (arith, get-forget_node idx id c, bytes_eq_iff id c, other, found), parent, name)

forget_node-IsLinked : (idx : Index) (id : ItemId) → IsLinked idx → IsLinked (forget_node idx id)
forget_node-IsLinked idx id linked = record {
  backed = λ p n c h. backed-forget_node idx id p n c linked h;
  unique = λ p n c d h k.
      linked.unique p n c d (has-forget_node idx id p (n, c) h) (has-forget_node idx id p (n, d) k);
}

drop_kids-IsLinked : (idx : Index) (id : ItemId) → IsLinked idx → IsLinked (drop_kids idx id)
drop_kids-IsLinked idx id linked = record {
  backed = λ p n c h. linked.backed p n c (ground (arith, has-remove id p (n, c) idx.kids));
  unique = λ p n c d h k.
      linked.unique p n c d (ground (arith, has-remove id p (n, c) idx.kids))
        (ground (arith, has-remove id p (n, d) idx.kids));
}

pub remove-IsLinked : (idx : Index) (id : ItemId) → IsLinked idx → IsLinked (remove idx id)
remove-IsLinked = remove_keeps IsLinked forget_node-IsLinked drop_kids-IsLinked
