-- ===== src/Index/ApplyLinks.antt =====
-- The steps of `Index::apply` (src/index.rs) before the new entry is written: the old place and a
-- clash of names go.
use onedrive_davfs.Base.{
  ◌≡◌, ◌≢◌, sym, ◌∙◌, Bool, true, false, none, some, subst, Option-cases, Bool-cases, [], ◌∷◌,
  Bytes, bytes_eq, bytes_eq_iff, arith, inl, inr, ◌⊎◌, find,
}
use mathlib.Core.Bool.{false≢true}
use onedrive_davfs.Base.Map.Assoc
use onedrive_davfs.Base.Map.PairSet
use onedrive_davfs.Base.Map.PairSet.{Pair, PairSet}
use onedrive_davfs.Index.State.{ItemId, Index, DeltaItem}
use onedrive_davfs.Index.Remove.{remove}
use onedrive_davfs.Index.Apply.{stays, detach_moved, clashes, drop_found, drop_clash}
use onedrive_davfs.Index.Links.{
  has, Stands, IsLinked, Covered, has-detach, is_root_id_iff, is_root_id_self,
}
use onedrive_davfs.Index.RemoveLinks.{remove-IsLinked, has-remove_id, get-remove_self}
use onedrive_davfs.Index.RemoveDeep.{remove_covers}

-- What `find` returns: an element that passes, or the fact that none does.
pub find-some :
    (t : Pair → Bool) (s : PairSet) (q : Pair)
    → find t s ≡ some q
    → (t q ≡ true) × (PairSet.contains q s ≡ true)
unfolding PairSet.contains
find-some t [] q h = cc
find-some t (x ∷ s) q h = ground (arith, find-some t s q, PairSet.pair_eq_iff x q)

pub find-none :
    (t : Pair → Bool) (s : PairSet) (q : Pair)
    → find t s ≡ none
    → PairSet.contains q s ≡ true
    → t q ≡ false
unfolding PairSet.contains
find-none t [] q h m = cc
find-none t (x ∷ s) q h m = ground (arith, find-none t s q, PairSet.pair_eq_iff x q)

-- `detach_moved` takes entries away, and of the item it leaves at most the entry that it will have.
module _ (idx : Index) (it : DeltaItem) (pid : ItemId) where
  pub has-detach_moved :
      (p : ItemId) (q : Pair)
      → has (detach_moved idx it pid).kids p q ≡ true
      → has idx.kids p q ≡ true
  unfolding detach_moved
  has-detach_moved p q h = elim (Option-cases (Assoc.get it.id idx.nodes)) [
    | inl e ↦ rw (e, detach_moved) at h
    | inr (old, e) ↦
        let h' = rw (e, detach_moved) at h in ground (arith, has-detach old it.id p q idx.kids, h')
  ]

  nodes-detach_moved : (detach_moved idx it pid).nodes ≡ idx.nodes
  unfolding detach_moved
  nodes-detach_moved = ground arith

  pub detach_moved-IsLinked : IsLinked idx → IsLinked (detach_moved idx it pid)
  detach_moved-IsLinked linked = record {
    backed = λ p n c h. rw nodes-detach_moved (linked.backed p n c (has-detach_moved p (n, c) h));
    unique = λ p n c d h k.
        linked.unique p n c d (has-detach_moved p (n, c) h) (has-detach_moved p (n, d) k);
  }

  -- Where the item still has an entry, it is the one that `link` writes.
  pub own_place :
      IsLinked idx
      → (p n : Bytes) → has (detach_moved idx it pid).kids p (n, it.id) ≡ true
      → (p ≡ pid) × (n ≡ it.name)
  unfolding detach_moved stays
  own_place linked p n h =
      let (node, found, parent, name) = linked.backed p n it.id (has-detach_moved p (n, it.id) h) in
      let h' = rw (found, detach_moved) at h in
      ground (
        arith,
        h',
        has-detach node it.id p (n, it.id) idx.kids,
        is_root_id_iff node.parent pid,
        is_root_id_self p,
        bytes_eq_iff node.name it.name,
        PairSet.pair_eq_iff (n, it.id) (n, it.id),
        parent,
        name,
      )

  has-detach_other :
      (c p n : Bytes)
      → it.id ≢ c
      → has idx.kids p (n, c) ≡ true
      → has (detach_moved idx it pid).kids p (n, c) ≡ true
  unfolding detach_moved
  has-detach_other c p n ne h = elim (Option-cases (Assoc.get it.id idx.nodes)) [
    | inl e ↦ rw (e, detach_moved) h
    | inr (old, e) ↦
        rw (e, detach_moved)
          (ground (
            arith,
            has-detach old it.id p (n, c) idx.kids,
            h,
            ne,
            PairSet.pair_eq_iff (old.name, it.id) (n, c),
          ))
  ]

  pub Covered-detach_moved :
      Covered (λ c. ⊥) idx → Covered (λ c. c ≡ it.id) (detach_moved idx it pid)
  Covered-detach_moved cov c p n st = elim (Bool-cases (bytes_eq it.id c)) [
    | inl same ↦ inr (sym ((bytes_eq_iff it.id c).0 same))
    | inr other ↦ elim (cov c p n (subst (λ ns. Stands ns c p n) nodes-detach_moved st)) [
      | inl h ↦
          inl (has-detach_other c p n (λ e. false≢true (sym other ∙ (bytes_eq_iff it.id c).1 e)) h)
      | inr never ↦ absurd never
    ]
  ]

-- No other id has the item's name in its directory.
abbrev pub NoClash : Index → DeltaItem → ItemId → Type 0
NoClash idx it pid = (d : Bytes) → has idx.kids pid (it.name, d) ≡ true → d ≡ it.id

module _ (idx : Index) (it : DeltaItem) (pid : ItemId) (linked : IsLinked idx) where
  remove_clash :
      (cid : ItemId) → has idx.kids pid (it.name, cid) ≡ true → NoClash (remove idx cid) it pid
  remove_clash cid found d h =
      let before = has-remove_id idx cid pid (it.name, d) h in
      let same = linked.unique pid it.name d cid before found in
      let (node, there, _, _) = (remove-IsLinked idx cid linked).backed pid it.name d h in
      absurd (ground (arith, get-remove_self idx cid, same, there))

  drop_clash-cases :
      ((drop_clash idx it pid ≡ idx) × NoClash idx it pid)
      ⊎ ((cid : ItemId) × (drop_clash idx it pid ≡ remove idx cid)
          × NoClash (remove idx cid) it pid)
  unfolding drop_clash drop_found clashes has
  drop_clash-cases = elim (Option-cases (Assoc.get pid idx.kids)) [
    | inl e ↦ inl (rw (e, drop_clash), λ d h. absurd (ground (arith, h, e)))
    | inr (set, e) ↦ elim (Option-cases (find (clashes it) set)) [
      | inl none_found ↦ inl (
        rw (e, drop_clash) (rw (none_found, drop_found)),
        λ d h. ground (
          arith,
          e,
          h,
          find-none (clashes it) set (it.name, d) none_found,
          bytes_eq_iff it.name it.name,
          bytes_eq_iff d it.id,
        ),
      )
      | inr ((name, cid), found) ↦
          let (passes, there) = find-some (clashes it) set (name, cid) found in
          let entry : has idx.kids pid (it.name, cid) ≡ true =
            ground (arith, e, there, passes, bytes_eq_iff name it.name) in
          inr (cid, rw (e, drop_clash) (rw (found, drop_found)), remove_clash cid entry)
    ]
  ]

-- The state that `link` is given.
pub record IsReady (idx : Index) (it : DeltaItem) (pid : ItemId) : Type 0 where
  pub linked : IsLinked idx
  pub own : (p n : Bytes) → has idx.kids p (n, it.id) ≡ true → (p ≡ pid) × (n ≡ it.name)
  pub free : NoClash idx it pid
  pub covered : Covered (λ c. c ≡ it.id) idx

pub drop_clash-IsReady :
    (idx : Index) (it : DeltaItem) (pid : ItemId)
    → IsLinked idx
    → ((p n : Bytes) → has idx.kids p (n, it.id) ≡ true → (p ≡ pid) × (n ≡ it.name))
    → Covered (λ c. c ≡ it.id) idx
    → IsReady (drop_clash idx it pid) it pid
drop_clash-IsReady idx it pid linked own cov = elim (drop_clash-cases idx it pid linked) [
  | inl (e, free) ↦ rw e (record { linked = linked; own = own; free = free; covered = cov })
  | inr (cid, e, free) ↦ rw e (record {
    linked = remove-IsLinked idx cid linked;
    own = λ p n h. own p n (has-remove_id idx cid p (n, it.id) h);
    free = free;
    covered =
        remove_covers (λ c. c ≡ it.id) idx cid
          (λ c p n st. elim (cov c p n st) [ inl h ↦ inl h | inr q ↦ inr (inr q) ]);
  })
]
