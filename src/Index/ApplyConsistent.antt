-- ===== src/Index/ApplyConsistent.antt =====
-- `Index::apply` (src/index.rs) keeps the index consistent.
use onedrive_davfs.Base.{
  ◌≡◌, ◌≢◌, sym, ap, ◌∙◌, true, false, none, some, Option-cases, Bool-cases, Bytes, bytes_eq,
  bytes_eq_iff, arith, inl, inr, ◌⊎◌,
}
use mathlib.Core.Bool.{false≢true}
use onedrive_davfs.Base.Str.{is_empty}
use onedrive_davfs.Base.Map.Assoc
use onedrive_davfs.Base.Map.PairSet
use onedrive_davfs.Base.Map.PairSet.{Pair, PairSet}
use onedrive_davfs.Index.State.{ItemId, Node, Index, DeltaItem}
use onedrive_davfs.Index.Apply.{detach_moved, drop_clash, link, place, set_root, apply}
use onedrive_davfs.Index.Links.{has, Stands, Covered, IsConsistent, has-add_kid}
use onedrive_davfs.Index.RemoveDeep.{remove-IsConsistent}
use onedrive_davfs.Index.ApplyLinks.{
  IsReady, drop_clash-IsReady, detach_moved-IsLinked, own_place, Covered-detach_moved,
}

module _ (idx : Index) (it : DeltaItem) (pid : ItemId) (ready : IsReady idx it pid) where
  -- An entry after `link` is the new one, or an old one of another id.
  link_entry :
      (p n c : Bytes)
      → has (link idx it pid).kids p (n, c) ≡ true
      → ((p ≡ pid) × (n ≡ it.name) × (c ≡ it.id)) ⊎ ((c ≢ it.id) × (has idx.kids p (n, c) ≡ true))
  unfolding link
  link_entry p n c h = elim (Bool-cases (bytes_eq c it.id)) [
    | inl same ↦
        let e = (bytes_eq_iff c it.id).0 same in
        let q = PairSet.pair_eq_iff (it.name, it.id) (n, c) in
        inl (
          ground (
            arith,
            h,
            has-add_kid pid p (it.name, it.id) (n, c) idx.kids,
            e,
            q,
            bytes_eq_iff pid p,
            ready.own p n,
          ))
    | inr other ↦
        let ne : c ≢ it.id = λ e. false≢true (sym other ∙ (bytes_eq_iff c it.id).1 e) in
        inr (
          ne,
          ground (
            arith,
            h,
            has-add_kid pid p (it.name, it.id) (n, c) idx.kids,
            ne,
            PairSet.pair_eq_iff (it.name, it.id) (n, c),
          ),
        )
  ]

  abbrev new_node : Node
  new_node = record { parent = some pid; name = it.name; meta = it.meta }

  link_backed :
      (p n c : Bytes)
      → ((p ≡ pid) × (n ≡ it.name) × (c ≡ it.id)) ⊎ ((c ≢ it.id) × (has idx.kids p (n, c) ≡ true))
      → Stands (link idx it pid).nodes c p n
  unfolding link
  link_backed p n c (inl (ep, en, ec)) = (
    new_node,
    ground (arith, Assoc.get-insert it.id c new_node idx.nodes, bytes_eq_iff it.id c, ec),
    ap some (sym ep),
    sym en,
  )
  link_backed p n c (inr (ne, old)) =
      let (node, found, parent, name) = ready.linked.backed p n c old in
      (
        node,
        ground
            (arith, Assoc.get-insert it.id c new_node idx.nodes, bytes_eq_iff it.id c, ne, found),
        parent,
        name,
      )

  link_unique :
      (p n c d : Bytes)
      → ((p ≡ pid) × (n ≡ it.name) × (c ≡ it.id)) ⊎ ((c ≢ it.id) × (has idx.kids p (n, c) ≡ true))
      → ((p ≡ pid) × (n ≡ it.name) × (d ≡ it.id)) ⊎ ((d ≢ it.id) × (has idx.kids p (n, d) ≡ true))
      → c ≡ d
  link_unique p n c d (inl (_, _, ec)) (inl (_, _, ed)) = ec ∙ sym ed
  link_unique p n c d (inl (ep, en, ec)) (inr (ne, old)) =
      ground (arith, ready.free d, ep, en, ne, old)
  link_unique p n c d (inr (ne, old)) (inl (ep, en, ed)) =
      ground (arith, ready.free c, ep, en, ne, old)
  link_unique p n c d (inr (_, old)) (inr (_, old')) = ready.linked.unique p n c d old old'

  link-Covered : Covered (λ c. ⊥) (link idx it pid)
  unfolding link
  link-Covered c p n (node, found, parent, name) = elim (Bool-cases (bytes_eq it.id c)) [
    | inl same ↦
        let e = (bytes_eq_iff it.id c).0 same in
        inl (
          ground (
            arith,
            found,
            Assoc.get-insert it.id c new_node idx.nodes,
            parent,
            name,
            e,
            has-add_kid pid p (it.name, it.id) (n, c) idx.kids,
            bytes_eq_iff pid p,
            bytes_eq_iff it.id c,
            PairSet.pair_eq_iff (it.name, it.id) (n, c),
          ))
    | inr other ↦
        let kept : Assoc.get c idx.nodes ≡ some node =
          ground (arith, found, Assoc.get-insert it.id c new_node idx.nodes, other) in
        elim (ready.covered c p n (node, kept, parent, name)) [
          | inl h ↦ inl (ground (arith, h, has-add_kid pid p (it.name, it.id) (n, c) idx.kids))
          | inr e ↦ absurd (false≢true (sym other ∙ (bytes_eq_iff it.id c).1 (sym e)))
        ]
  ]

  link-IsConsistent : IsConsistent (link idx it pid)
  link-IsConsistent = record {
    linked = record {
      backed = λ p n c h. link_backed p n c (link_entry p n c h);
      unique = λ p n c d h k. link_unique p n c d (link_entry p n c h) (link_entry p n d k);
    };
    covered = link-Covered;
  }

-- Placing an item under any parent keeps the index consistent.
pub place-IsConsistent :
    (idx : Index) (it : DeltaItem) (pid : ItemId)
    → IsConsistent idx
    → IsConsistent (place idx it pid)
unfolding place
place-IsConsistent idx it pid ok =
    link-IsConsistent (drop_clash (detach_moved idx it pid) it pid) it pid (
      drop_clash-IsReady (detach_moved idx it pid) it pid
        (detach_moved-IsLinked idx it pid ok.linked) (own_place idx it pid ok.linked)
        (Covered-detach_moved idx it pid ok.covered))

-- A root item must not have an entry, as its node has no parent.
set_root-IsConsistent :
    (idx : Index) (it : DeltaItem)
    → IsConsistent idx
    → ((p n : Bytes) → has idx.kids p (n, it.id) ≡ false)
    → IsConsistent (set_root idx it)
unfolding set_root
set_root-IsConsistent idx it ok alone =
    let node : Node = record { parent = none; name = it.name; meta = it.meta } in
    record {
      linked = record {
        backed = λ p n c h.
            let (old, found, parent, name) = ok.linked.backed p n c h in
            (
              old,
              ground (
                arith,
                found,
                Assoc.get-insert it.id c node idx.nodes,
                bytes_eq_iff it.id c,
                alone p n,
                h,
              ),
              parent,
              name,
            );
        unique = ok.linked.unique;
      };
      covered = λ c p n st.
          let (node', found, parent, name) = st in
          ok.covered c p n (
            node',
            ground (
              arith,
              found,
              Assoc.get-insert it.id c node idx.nodes,
              bytes_eq_iff it.id c,
              parent,
            ),
            parent,
            name,
          );
    }

-- Every delta item keeps a consistent index consistent, whether it is deleted, moved, renamed,
-- clashes with another id or arrives before its parent; where it is the drive's root, provided that
-- no entry names it.
pub apply-IsConsistent :
    (idx : Index) (it : DeltaItem)
    → IsConsistent idx
    → (it.is_root ≡ true → (p n : Bytes) → has idx.kids p (n, it.id) ≡ false)
    → IsConsistent (apply idx it)
unfolding apply
apply-IsConsistent idx it ok alone = elim (Bool-cases (is_empty it.id)) [
  | inl e ↦ rw e ok
  | inr e ↦ rw e (elim (Bool-cases it.deleted) [
    | inl d ↦ rw d (remove-IsConsistent idx it.id ok)
    | inr d ↦ rw d (elim (Bool-cases it.is_root) [
      | inl r ↦ rw r (set_root-IsConsistent idx it ok (alone r))
      | inr r ↦ rw r (elim (Option-cases it.parent_id) [
        | inl none_given ↦ rw (none_given, apply) ok
        | inr (pid, given) ↦ rw (given, apply) (place-IsConsistent idx it pid ok)
      ])
    ])
  ])
]
